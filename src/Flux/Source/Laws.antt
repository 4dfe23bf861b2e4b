-- ===== src/Flux/Source/Laws.antt =====
-- The checksum of an artifact.
use kdef.Base.{
  ℕ, [], ◌∷◌, ◌++◌, true, Result, ok, err, ok_of_bind, ok_of_then, ◌≡◌, ◌≢◌, refl, arith, all,
}
use kdef.Base.Text.{Text, text, ◌==◌, eq_iff}
use kdef.Flux.Resources.Laws.{lacks, cut-append}
use kdef.Flux.Source.{
  Artifact, Response, Platform, colon, wrap_error, check_parts, check_digest, check_status,
  fetch_artifact,
}

module _ {O : Type 0} (platform : Platform O) where
  check_digest_parts :
      (algorithm expected body : Text)
      → lacks colon algorithm ≡ true
      → check_digest platform (algorithm ++ colon ∷ expected) body
        ≡ check_parts platform (algorithm ∷ expected ∷ []) body
  unfolding check_digest
  check_digest_parts [] expected body h = ground (arith, cut-append colon [] expected)
  check_digest_parts (c ∷ algorithm) expected body h =
      ground (arith, cut-append colon (c ∷ algorithm) expected)

  check_digest_sha256 :
      (expected body : Text)
      → check_digest platform (text "sha256" ++ colon ∷ expected) body ≡ ok tt
      → platform.sha256_hex body ≡ expected
  unfolding check_parts lacks all ◌==◌
  check_digest_sha256 expected body h = ground (
    arith,
    check_digest_parts (text "sha256") expected body refl,
    eq_iff (platform.sha256_hex body) expected,
  )

  check_digest-of :
      {digest : Text} (expected body : Text)
      → digest ≡ text "sha256" ++ colon ∷ expected
      → check_digest platform digest body ≡ ok tt
      → platform.sha256_hex body ≡ expected
  check_digest-of expected body e h = check_digest_sha256 expected body (rw e at h)

  -- A digest of another algorithm is not checked: whatever the body is, it passes.
  pub check_digest_other :
      (algorithm expected body : Text)
      → lacks colon algorithm ≡ true
      → algorithm ≢ text "sha256"
      → check_digest platform (algorithm ++ colon ∷ expected) body ≡ ok tt
  unfolding check_parts
  check_digest_other algorithm expected body h other =
      ground (arith, check_digest_parts algorithm expected body h, eq_iff algorithm (text "sha256"))

  -- What was downloaded for the artifact: a response with status 200 and its body.
  pub record IsServed (artifact : Artifact) (body : Text) : Type 0 where
    pub request : Text
    pub response : Response
    pub requested : platform.new_request artifact.url ≡ ok request
    pub sent : platform.send request ≡ ok response
    pub status_ok : response.status_code ≡ 200
    pub read : response.body ≡ ok body

  wrap_error_ok :
      {A : Type 0} (prefix : Text) (m : Result A) {a : A} → wrap_error prefix m ≡ ok a → m ≡ ok a
  wrap_error_ok prefix (ok a) h = h
  wrap_error_ok prefix (err e) h = cc

  check_status_ok : (n : ℕ) → check_status platform n ≡ ok tt → n ≡ 200
  unfolding check_status
  check_status_ok n h = ground arith

  -- Where fetchArtifact succeeds for an artifact with a sha256 digest, the body that was downloaded
  -- from its URL with status 200 has this digest.
  pub fetch_artifact_checked :
      (artifact : Artifact) (expected : Text) {dir : Text}
      → artifact.digest ≡ text "sha256" ++ colon ∷ expected
      → fetch_artifact platform artifact ≡ ok dir
      → (body : Text) × IsServed artifact body × (platform.sha256_hex body ≡ expected)
  unfolding fetch_artifact
  fetch_artifact_checked artifact expected d h =
      let (request, requested, h1) =
        ok_of_bind (wrap_error (text "create request") (platform.new_request artifact.url)) _ h in
      let (response, sent, h2) =
        ok_of_bind (wrap_error (text "download artifact") (platform.send request)) _ h1 in
      let (status, h3) = ok_of_then (check_status platform response.status_code) _ h2 in
      let (body, read, h4) = ok_of_bind (wrap_error (text "read artifact") response.body) _ h3 in
      let checked = (ok_of_then (check_digest platform artifact.digest body) _ h4).0 in
      (
        body,
        record {
          request = request;
          response = response;
          requested = wrap_error_ok (text "create request") _ requested;
          sent = wrap_error_ok (text "download artifact") _ sent;
          status_ok = check_status_ok _ status;
          read = wrap_error_ok (text "read artifact") _ read;
        },
        check_digest-of expected body d checked,
      )

-- ===== src/Parser/Blocks/Files/Count.antt =====
-- internal/parser/app.go: how many resources the blocks of a body yield.
use Prim.Native.String.{String}
use kdef.Base.Lists.{All, mem}
use kdef.Base.Text.{Text, text, ◌==◌}
use kdef.Base.{
  ℕ, suc, ◌+◌, List, [], ◌∷◌, ◌++◌, Bool, false, ◌||◌, if◌then◌else◌, ◌≡◌, refl, sym, ap, inl, inr,
  Bool-cases, arith, Result,
}
use kdef.Parser.Blocks.Files.{parse_blocks_from_body, top_level_cases, top_level_schema}
use kdef.Parser.FileResult.{FileResult}
use kdef.Parser.Hcl.Valid.{Valid, Valid-after, no_errors}
use kdef.Parser.Hcl.{
  ◌>>=◌, after, Hcl, Parsed, panic, parsed, has_errors, Block, on_block, keep_valid, each_block,
  switch, with_content,
}
use kdef.Types.{Fields}

length : {A : Type 0} → List A → ℕ
length [] = 0
length (x ∷ xs) = suc (length xs)

length-snoc : {A : Type 0} (xs : List A) (x : A) → length (xs ++ x ∷ []) ≡ suc (length xs)
unfolding length
length-snoc [] x = refl
length-snoc (y ∷ xs) x = ap suc (length-snoc xs x)

-- How many resources a result has.
unfoldable pub size : FileResult → ℕ
unfolding length
size r =
    length r.deployments
    + (length r.daemon_sets
        + (length r.stateful_sets
            + (length r.cron_jobs
                + (length r.config_maps
                    + (length r.ingresses
                        + (length r.secrets
                            + (length r.sealed_secrets
                                + (length r.persistent_volume_claims
                                    + (length r.cluster_roles
                                        + (length r.cluster_role_bindings
                                            + (length r.crds + (length r.csi_drivers))))))))))))

-- The types of blocks that are resources: all but `images`.
unfoldable pub is_resource : Text → Bool
is_resource t = mem t (
    text "deployment"
    ∷ text "daemonset"
    ∷ text "statefulset"
    ∷ text "cronjob"
    ∷ text "configmap"
    ∷ text "ingress"
    ∷ text "secret"
    ∷ text "sealedsecret"
    ∷ text "persistentvolumeclaim"
    ∷ text "clusterrole"
    ∷ text "clusterrolebinding"
    ∷ text "crd"
    ∷ text "csidriver"
    ∷ [])

unfoldable pub count_resources : {C : Type 0} → List (Block C) → ℕ
unfolding is_resource
count_resources [] = 0
count_resources (b ∷ bs) = let n = count_resources bs in if is_resource b.type then suc n else n

abbrev Grows : ℕ → FileResult → FileResult → Type 0
Grows n r r' = size r' ≡ n + size r

-- A case adds one resource where it has no error.
abbrev Adds : {C : Type 0} → String × (Block C → FileResult → Parsed FileResult) → Type 0
Adds {C} (name, step) = (b : Block C) (r : FileResult) → Valid (Grows 1 r) (step b r)

Adds-keep_valid :
    {B : Type 0} (set : B → FileResult → FileResult) (r : FileResult) (m : Parsed B)
    → ((x : B) → Grows 1 r (set x r))
    → Valid (Grows 1 r) (keep_valid set r m)
unfolding keep_valid
Adds-keep_valid set r panic q = tt
Adds-keep_valid set r (parsed x ds) q = λ e. rw e (q x)

Adds-on_block :
    {B C : Type 0} (parse : Block C → Parsed B) (set : B → FileResult → FileResult)
    → ((x : B) (r : FileResult) → Grows 1 r (set x r))
    → (b : Block C) (r : FileResult) → Valid (Grows 1 r) (on_block parse set b r)
unfolding on_block
Adds-on_block parse set q b r = Adds-keep_valid set r (parse b) (λ x. q x r)

-- The names of the cases.
abbrev handled :
    {C : Type 0} → List (String × (Block C → FileResult → Parsed FileResult)) → Text → Bool
handled [] t = false
handled ((name, step) ∷ cases) t = text name == t || handled cases t

Grows-switch :
    {C : Type 0} (cases : List (String × (Block C → FileResult → Parsed FileResult)))
    → All Adds cases
    → (b : Block C) (r : FileResult)
    → Valid (Grows (if handled cases b.type then 1 else 0) r) (switch cases b r)
Grows-switch [] qs b r = λ e. omega arith
Grows-switch ((name, step) ∷ cases) (q, qs) b r = elim (Bool-cases (text name == b.type)) [
  | inl e ↦ rw e (q b r)
  | inr e ↦ rw e (Grows-switch cases qs b r)
]

Grows-after :
    (n k : ℕ) (r r' : FileResult) (ds : _) (m : Parsed FileResult)
    → (has_errors ds ≡ false → Grows k r r')
    → Valid (Grows n r') m
    → Valid (Grows (n + k) r) (after ds m)
Grows-after n k r r' ds panic p q = tt
Grows-after n k r r' ds (parsed r'' es) p q =
    λ e. let (l, o) = no_errors ds es e in let first = p l in let second = q o in omega arith

Grows-bind :
    (n k : ℕ) (r : FileResult) (m : Parsed FileResult) (f : FileResult → Parsed FileResult)
    → Valid (Grows k r) m
    → ((r' : FileResult) → Valid (Grows n r') (f r'))
    → Valid (Grows (n + k) r) (m >>= f)
Grows-bind n k r panic f p q = tt
Grows-bind n k r (parsed r' ds) f p q = Grows-after n k r r' ds (f r') p (q r')

count_one :
    {C : Type 0} (b : Block C) (bs : List (Block C))
    → count_resources bs + (if is_resource b.type then 1 else 0) ≡ count_resources (b ∷ bs)
unfolding count_resources
count_one b bs = ground arith

Grows-each_block :
    {C : Type 0} (step : Block C → FileResult → Parsed FileResult)
    → ((b : Block C) (r : FileResult)
        → Valid (Grows (if is_resource b.type then 1 else 0) r) (step b r))
    → (bs : List (Block C)) (r : FileResult)
    → Valid (Grows (count_resources bs) r) (each_block step bs r)
unfolding each_block count_resources
Grows-each_block step q [] r = λ e. omega arith
Grows-each_block step q (b ∷ bs) r = rw (sym (count_one b bs)) (
    Grows-bind (count_resources bs) (if is_resource b.type then 1 else 0) r (step b r)
      (each_block step bs) (q b r) (Grows-each_block step q bs))

module _ (h : Hcl) (ctx : h.Context) (marshal_json : h.Value → Result Text)
    (unmarshal : Text → Result Fields) (to_lower : Text → Text) where
  open h use {Body}

  All-Adds : All Adds (top_level_cases h marshal_json unmarshal to_lower ctx)
  unfolding size length
  All-Adds = (
    Adds-on_block _ _ (λ x r. simp (length-snoc r.deployments x) (omega arith)),
    (
      Adds-on_block _ _ (λ x r. simp (length-snoc r.daemon_sets x) (omega arith)),
      (
        Adds-on_block _ _ (λ x r. simp (length-snoc r.stateful_sets x) (omega arith)),
        (
          Adds-on_block _ _ (λ x r. simp (length-snoc r.cron_jobs x) (omega arith)),
          (
            Adds-on_block _ _ (λ x r. simp (length-snoc r.config_maps x) (omega arith)),
            (
              Adds-on_block _ _ (λ x r. simp (length-snoc r.ingresses x) (omega arith)),
              (
                Adds-on_block _ _ (λ x r. simp (length-snoc r.secrets x) (omega arith)),
                (
                  Adds-on_block _ _ (λ x r. simp (length-snoc r.sealed_secrets x) (omega arith)),
                  (
                    Adds-on_block _ _
                        (λ x r. simp (length-snoc r.persistent_volume_claims x) (omega arith)),
                    (
                      Adds-on_block _ _ (λ x r. simp (length-snoc r.cluster_roles x) (omega arith)),
                      (
                        Adds-on_block _ _
                            (λ x r. simp (length-snoc r.cluster_role_bindings x) (omega arith)),
                        (
                          Adds-on_block _ _ (λ x r. simp (length-snoc r.crds x) (omega arith)),
                          (
                            Adds-on_block _ _
                                (λ x r. simp (length-snoc r.csi_drivers x) (omega arith)),
                            tt,
                          ),
                        ),
                      ),
                    ),
                  ),
                ),
              ),
            ),
          ),
        ),
      ),
    ),
  )

  handled-is_resource :
      (t : Text) → handled (top_level_cases h marshal_json unmarshal to_lower ctx) t ≡ is_resource t
  unfolding is_resource mem
  handled-is_resource t = refl

  -- The step for a block of the file.
  Grows-block :
      (b : Block Body) (r : FileResult)
      → Valid
          (Grows (if is_resource b.type then 1 else 0) r)
          (switch (top_level_cases h marshal_json unmarshal to_lower ctx) b r)
  Grows-block b r =
      rw (sym (handled-is_resource b.type))
        (Grows-switch (top_level_cases h marshal_json unmarshal to_lower ctx) All-Adds b r)

  -- Where the blocks of a body are parsed without an error, the result has one more resource for
  -- each block of the body that is not an images block, beside the resources that were there.
  pub parse_blocks_from_body-size :
      (body : Body) (r : FileResult)
      → Valid
          (λ r'. size r' ≡ count_resources (h.content top_level_schema body).0.blocks + size r)
          (parse_blocks_from_body h marshal_json unmarshal to_lower ctx body r)
  unfolding parse_blocks_from_body with_content
  parse_blocks_from_body-size body r =
      elim (Bool-cases (has_errors (h.content top_level_schema body).1)) [
        | inl e ↦ rw e (λ f. cc)
        | inr e ↦ rw e (
            Valid-after _ (h.content top_level_schema body).1 _ (
              Grows-each_block (switch (top_level_cases h marshal_json unmarshal to_lower ctx))
                Grows-block (h.content top_level_schema body).0.blocks r))
      ]

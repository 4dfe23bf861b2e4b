-- ===== src/Types/Hosts/Laws.antt =====
-- What AllHosts, ResourceName and CertificateSecretName return.
use kdef.Base.{
  ℕ, zero, suc, nat_eq, ◌+◌, List, [], ◌∷◌, ◌++◌, true, false, not, ◌&&◌, ◌||◌, if◌then◌else◌, ◌≡◌,
  refl, sym, ap, ◌∙◌, arith, Bool-cases, inl, inr,
}
use kdef.Base.Dict.{lookup, insert, lookup-insert, contains, null}
use kdef.Base.Format.{itoa, itoa_injective, replace_all}
use kdef.Base.Lists.{mem, distinct, distinct_from, distinct_from_nil}
use kdef.Base.Text.{Text, text, is_empty, eq_iff}
use kdef.Types.Hosts.{
  HostSet, add_host, add_hosts, all_hosts, resource_name, certificate_secret_name, secret_of_hosts,
}
use kdef.Types.Ingress.{IngressConfig}
use mathlib.Core.List.{append-nil, append_assoc}

-- The hosts that are not empty, each at its first place, without those seen before.
unfoldable pub first_places : List Text → List Text → List Text
first_places seen [] = []
first_places seen (h ∷ hs) =
    let kept = h ∷ first_places (h ∷ seen) hs in
    let skipped = first_places seen hs in if is_empty h || mem h seen then skipped else kept

add_host_skip :
    (s : HostSet) (seen : List Text) (x : Text)
    → ((k : Text) → contains k s.seen ≡ mem k seen)
    → (is_empty x || mem x seen) ≡ true
    → add_host s x ≡ s
unfolding add_host
add_host_skip s seen x h skip = ground (arith, h x)

add_host_keep :
    (s : HostSet) (seen : List Text) (x : Text)
    → ((k : Text) → contains k s.seen ≡ mem k seen)
    → (is_empty x || mem x seen) ≡ false
    → add_host s x ≡ record s { seen = insert x tt s.seen; hosts = s.hosts ++ x ∷ [] }
unfolding add_host
add_host_keep s seen x h keep = ground (arith, h x)

add_hosts-first_places :
    (s : HostSet) (seen hs : List Text)
    → ((k : Text) → contains k s.seen ≡ mem k seen)
    → (add_hosts s hs).hosts ≡ s.hosts ++ first_places seen hs
unfolding add_hosts first_places
add_hosts-first_places s seen [] h = sym (append-nil s.hosts)
add_hosts-first_places s seen (x ∷ hs) h = elim (Bool-cases (is_empty x || mem x seen)) [
  | inl skip ↦
      ap (λ t. (add_hosts t hs).hosts) (add_host_skip s seen x h skip)
      ∙ add_hosts-first_places s seen hs h
      ∙ rw skip
  | inr keep ↦
      ap (λ t. (add_hosts t hs).hosts) (add_host_keep s seen x h keep)
      ∙ add_hosts-first_places (record { hosts = s.hosts ++ x ∷ []; seen = insert x tt s.seen })
          (x ∷ seen) hs (λ k. unfold mem in ground (arith, h k, lookup-insert x k tt s.seen))
      ∙ append_assoc s.hosts (x ∷ []) (first_places (x ∷ seen) hs)
      ∙ rw keep
]

all_hosts-first_places : (i : IngressConfig) → all_hosts i ≡ first_places [] (i.host ∷ i.hosts)
unfolding all_hosts
all_hosts-first_places i =
    add_hosts-first_places (record { hosts = []; seen = [] }) [] (i.host ∷ i.hosts)
      (λ k. unfold lookup mem in refl)

first_places-distinct_from :
    (seen hs : List Text) → distinct_from seen (first_places seen hs) ≡ true
unfolding first_places distinct_from
first_places-distinct_from seen [] = refl
first_places-distinct_from seen (h ∷ hs) =
    ground (arith, first_places-distinct_from seen hs, first_places-distinct_from (h ∷ seen) hs)

mem-first_places :
    (k : Text) (seen hs : List Text)
    → mem k (first_places seen hs) ≡ (if is_empty k || mem k seen then false else mem k hs)
unfolding first_places mem
mem-first_places k seen [] = ground arith
mem-first_places k seen (h ∷ hs) =
    ground (arith, mem-first_places k seen hs, mem-first_places k (h ∷ seen) hs, eq_iff h k)

-- AllHosts lists each declared host that is not empty, and nothing else, once: the hosts are
-- distinct, and a text is among them exactly when it is declared and not empty.
pub all_hosts_lem :
    (i : IngressConfig)
    → (distinct (all_hosts i) ≡ true)
      × ((k : Text) → mem k (all_hosts i) ≡ (not (is_empty k) && mem k (i.host ∷ i.hosts)))
all_hosts_lem i = rw (all_hosts-first_places i) (
  sym (distinct_from_nil (first_places [] (i.host ∷ i.hosts)))
      ∙ first_places-distinct_from [] (i.host ∷ i.hosts),
  λ k. mem-first_places k [] (i.host ∷ i.hosts) ∙ unfold mem in ground arith,
)

append_cancel : (w s t : Text) → w ++ s ≡ w ++ t → s ≡ t
append_cancel [] s t e = e
append_cancel (c ∷ w) s t e = append_cancel w s t (cc e)

append-ne_self : (w : Text) (c : ℕ) (s : Text) → w ++ (c ∷ s) ≡ w → ⊥
append-ne_self [] c s e = cc
append-ne_self (d ∷ w) c s e = append-ne_self w c s (cc e)

suffixed : Text → ℕ → Text
suffixed w index = if nat_eq index 0 then w else w ++ (text "-" ++ itoa (index + 1))

resource_name-suffixed :
    (i : IngressConfig) (w : Text) (index : ℕ)
    → is_empty i.name ≡ true
    → resource_name i w index ≡ suffixed w index
unfolding resource_name suffixed
resource_name-suffixed i w index h = ground arith

suffixed-suc : (w : Text) (n : ℕ) → suffixed w (suc n) ≡ w ++ (b'-' ∷ itoa (suc n + 1))
unfolding suffixed
suffixed-suc w n = ground arith

suffixed_injective : (w : Text) (m n : ℕ) → suffixed w m ≡ suffixed w n → m ≡ n
unfolding suffixed
suffixed_injective w zero zero e = refl
suffixed_injective w zero (suc n) e =
    absurd (append-ne_self w b'-' (itoa (suc n + 1)) (sym (suffixed-suc w n) ∙ sym e))
suffixed_injective w (suc m) zero e =
    absurd (append-ne_self w b'-' (itoa (suc m + 1)) (sym (suffixed-suc w m) ∙ e))
suffixed_injective w (suc m) (suc n) e =
    let same =
      append_cancel w (b'-' ∷ itoa (suc m + 1)) (b'-' ∷ itoa (suc n + 1))
        (sym (suffixed-suc w m) ∙ e ∙ suffixed-suc w n) in
    omega (arith, itoa_injective (suc m + 1) (suc n + 1) (cc same))

-- Two blocks without a name of their own, on one workload, get one resource name only if they are
-- the same block.
resource_name_injective :
    (i j : IngressConfig) (workload : Text) (m n : ℕ)
    → is_empty i.name ≡ true
    → is_empty j.name ≡ true
    → resource_name i workload m ≡ resource_name j workload n
    → m ≡ n
resource_name_injective i j workload m n hi hj e =
    let e' : suffixed workload m ≡ suffixed workload n =
      sym (resource_name-suffixed i workload m hi) ∙ e ∙ resource_name-suffixed j workload n hj in
    suffixed_injective workload m n e'

is_empty-append : (s : Text) (c : ℕ) (t : Text) → is_empty (s ++ (c ∷ t)) ≡ false
is_empty-append [] c t = refl
is_empty-append (d ∷ s) c t = refl

is_empty-secret_of_hosts : (hs : List Text) → is_empty (secret_of_hosts hs) ≡ null hs
is_empty-secret_of_hosts [] = refl
is_empty-secret_of_hosts (h ∷ hs) = is_empty-append (replace_all b'.' b'-' h) b'-' (text "tls")

-- A Certificate is generated exactly if TLS is on, no secret is given and there is a host.
certificate_secret_name_empty :
    (i : IngressConfig)
    → not (is_empty (certificate_secret_name i))
      ≡ (i.tls && is_empty i.tls_secret && not (null (all_hosts i)))
unfolding certificate_secret_name
certificate_secret_name_empty i = ground (arith, is_empty-secret_of_hosts (all_hosts i))

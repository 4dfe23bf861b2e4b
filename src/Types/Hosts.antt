-- ===== src/Types/Hosts.antt =====
-- internal/types/app.go: the methods of IngressConfig.
pub mod Laws
use kdef.Base.{ℕ, ◌+◌, List, [], ◌∷◌, ◌++◌, Bool, not, ◌||◌, nat_eq, if◌then◌else◌}
use kdef.Base.Dict.{Dict, lookup, insert, contains}
use kdef.Base.Format.{itoa, replace_all}
use kdef.Base.Text.{Text, text, is_empty}
use kdef.Types.Ingress.{IngressConfig}

-- The two variables that the closure `add` of AllHosts writes.
pub record HostSet : Type 0 where
  pub hosts : List Text
  pub seen : Dict (Unit {0})

unfoldable pub add_host : HostSet → Text → HostSet
add_host s h =
    if is_empty h
    then s
    else if contains h s.seen
    then s
    else record s { seen = insert h tt s.seen; hosts = s.hosts ++ h ∷ [] }

unfoldable pub add_hosts : HostSet → List Text → HostSet
add_hosts s [] = s
add_hosts s (h ∷ hs) = add_hosts (add_host s h) hs

unfoldable pub all_hosts : IngressConfig → List Text
unfolding add_hosts add_host lookup insert
all_hosts i = (add_hosts (add_host (record { hosts = []; seen = [] }) i.host) i.hosts).hosts

unfoldable pub resource_name : IngressConfig → Text → ℕ → Text
resource_name i workload_name index =
    if not (is_empty i.name)
    then i.name
    else if nat_eq index 0
    then workload_name
    else workload_name ++ (text "-" ++ itoa (index + 1))

abbrev pub secret_of_hosts : List Text → Text
secret_of_hosts [] = []
secret_of_hosts (h ∷ hs) = replace_all b'.' b'-' h ++ text "-tls"

unfoldable pub certificate_secret_name : IngressConfig → Text
certificate_secret_name i =
    if not i.tls || not (is_empty i.tls_secret) then [] else secret_of_hosts (all_hosts i)

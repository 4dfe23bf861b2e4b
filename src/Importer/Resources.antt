-- ===== src/Importer/Resources.antt =====
-- internal/importer/mapper.go: the values that writeResources writes. A quantity is the text that the
-- Kubernetes library prints, and none where it is nil or zero.
pub mod Laws
use kdef.Base.{◌++◌, if◌then◌else◌, Option, none, some}
use kdef.Base.Text.{Text, text, ◌==◌}

-- The value of one of the three attributes, if it is written.
unfoldable pub resource_value : Option Text → Option Text → Option Text
resource_value none limit = none
resource_value (some request) none = some request
resource_value (some request) (some limit) =
    if request == limit then some request else some (request ++ (text ".." ++ limit))

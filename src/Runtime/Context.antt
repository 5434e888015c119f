-- ===== src/Runtime/Context.antt =====
-- internal/attractor/runtime/context.go: the key-value context and its log. Each method holds the
-- mutex for its whole body but `Clone`, so methods of several goroutines run one after another;
-- a copy that a method returns is a value here.
use dfgo.Prelude.{String, List, [], ◌∷◌, ◌++◌, Option, some, none, ◌≡◌, str_eq, if◌then◌else◌}
use dfgo.Prelude.Dict.{Dict, get, put, remove, merge, get-put, get-remove, get-merge, or_else}

pub record Context : Type 0 where
  pub entries : Dict String
  pub logs : List String

abbrev pub new_context : Context
new_context = record { entries = []; logs = [] }

unfoldable pub lookup : Context → String → Option String
lookup c key = get c.entries key

unfoldable pub store : Context → String → String → Context
store c key value = record c { entries = put c.entries key value }

unfoldable pub delete : Context → String → Context
delete c key = record c { entries = remove c.entries key }

unfoldable pub merge_all : Context → Dict String → Context
merge_all c new = record c { entries = merge c.entries new }

unfoldable pub snapshot : Context → Dict String
snapshot c = c.entries

unfoldable pub clone : Context → Context
unfolding snapshot
clone c = record { entries = snapshot c; logs = c.logs }

unfoldable pub append_log : Context → String → Context
append_log c entry = record c { logs = c.logs ++ entry ∷ [] }

-- What a read returns after each of the writes.
pub lookup-store :
    (c : Context) (k j v : String)
    → lookup (store c k v) j ≡ (if str_eq k j then some v else lookup c j)
unfolding lookup store
lookup-store c k j v = get-put c.entries k j v

pub lookup-delete :
    (c : Context) (k j : String) → lookup (delete c k) j ≡ (if str_eq k j then none else lookup c j)
unfolding lookup delete
lookup-delete c k j = get-remove c.entries k j

pub lookup-merge_all :
    (c : Context) (new : Dict String) (j : String)
    → lookup (merge_all c new) j ≡ or_else (get new j) (lookup c j)
unfolding lookup merge_all
lookup-merge_all c new j = get-merge c.entries new j

-- ===== src/ShareKeys/Tests.antt =====
-- sharenodekeys.cpp: the theorem at a concrete input.
use sdk.Prelude.{◌+◌, ◌%◌, List, [], ◌∷◌, false, none, some, map, replicate}
use sdk.ShareKeys.{ShareNode, ShareNodeKeys, add}
use sdk.ShareKeys.Indices.{IsAdded, add-IsAdded}

-- A node in a shared folder, below a folder that is not shared, below one that is.
abbrev chain : List ShareNode
chain =
    record { nodehandle = 7; sharekey = some (map (λ c. (c + 1) % 256)) }
    ∷ record { nodehandle = 8; sharekey = none }
    ∷ record { nodehandle = 5; sharekey = some (map (λ c. (c + 2) % 256)) }
    ∷ []

abbrev table : ShareNodeKeys
table = record { shares = 5 ∷ []; items = (1 ∷ []) ∷ []; keys = b',' ∷ [] }

add-IsAdded_example :
    IsAdded
      (replicate 16 9)
      (2 ∷ [])
      false
      chain
      table
      (add (replicate 16 9) (2 ∷ []) false chain table)
add-IsAdded_example = add-IsAdded (replicate 16 9) (2 ∷ []) false chain table

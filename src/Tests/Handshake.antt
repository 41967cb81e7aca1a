-- ===== src/Tests/Handshake.antt =====
-- The theorem of Handshake.antt at a concrete input; bytes stand for their own hexadecimal text.
use sparkl_router.Common.{ℕ, ◌≡◌, ◌↔◌, Bool, true, Option, some, List, replicate, Text, codes}
use sparkl_router.Protocol.{NodeToRouterFrame}
use sparkl_router.Handshake.{handle_node_connect}
use sparkl_router.Handshake.Checks.{IsShown, handle_node_connect_iff}

abbrev hex : Text → Option (List ℕ)
hex text = some text

abbrev keccak : List ℕ → List ℕ
keccak bytes = bytes

abbrev verify : List ℕ → List ℕ → List ℕ → Bool
verify key message signature = true

abbrev registered : ℕ → Option Bool
registered id = some true

abbrev frame : Option (NodeToRouterFrame (Unit {0}))
frame = some (
    NodeToRouterFrame.auth (replicate 32 1) (replicate 64 2) (some (replicate 32 3))
      (some (codes "n")))

handle_node_connect_iff_example :
    (handle_node_connect hex keccak verify true registered (replicate 32 9) 5 frame
      ≡ some (1, some (codes "n")))
    ↔ IsShown hex keccak verify true registered (replicate 32 9) 5 frame 1 (some (codes "n"))
handle_node_connect_iff_example =
    handle_node_connect_iff hex keccak verify true registered (replicate 32 9) 5 frame 1
      (some (codes "n"))

-- ===== src/PeerThreads.antt =====
-- peer_threads.py: the last thread that each peer wrote in, in one JSON file.
pub mod Laws
use aap_hermes.Prelude.{
  String, Bool, true, false, Option, none, some, List, [], ◌∷◌, if◌then◌else◌, ◌==◌,
}
use aap_hermes.Prelude.Text.{is_empty}
use aap_hermes.Prelude.Dict.{Dict, lookup, insert}

-- The file: absent or no JSON, an object with no dict under `threads`, or an object with one; a
-- document that is no object makes `data.get` raise.
pub data File : Type 0 where
  missing : File
  no_object : File
  no_threads : File
  threads : Dict String → File

-- `none` is the exception of `data.get`.
unfoldable pub load : File → Option (Dict String)
load missing = some []
load no_object = none
load no_threads = some []
load (threads d) = some d

abbrev same : String → Option String → Bool
same t none = false
same t (some s) = s == t

unfoldable pub store_thread : Bool → String → String → File → Dict String → File
store_thread writes peer t file d =
    if same t (lookup peer d) then file else if writes then threads (insert peer t d) else file

-- The file after the call, or `none` if it raises. `writes` says whether the write succeeds; an
-- `OSError` of it is logged.
unfoldable pub record_inbound_thread : Bool → String → Option String → File → Option File
unfolding store_thread
record_inbound_thread writes peer none file = some file
record_inbound_thread writes peer (some t) file =
    if is_empty t
    then some file
    else elim (load file) [ none ↦ none | some d ↦ some (store_thread writes peer t file d) ]

unfoldable pub last_inbound_thread : String → File → Option (Option String)
last_inbound_thread peer file = elim (load file) [ none ↦ none | some d ↦ some (lookup peer d) ]

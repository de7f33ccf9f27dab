-- ===== src/Utils/LastChunk.antt =====
-- The last chunk of a path, whatever stands before the last slash.
use application_gateway_kube.Common.{Text, [], ◌∷◌, ◌++◌, ◌≡◌, split}
use application_gateway_kube.Common.Split.{Lacks, split-append, split_of_Lacks, last_or-append}
use application_gateway_kube.Utils.{get_last_chunk_of_slashed}

-- What follows the last slash is the last chunk.
pub get_last_chunk_of_slashed-append :
    (prefix name : Text)
    → Lacks b'/' name
    → get_last_chunk_of_slashed (prefix ++ b'/' ∷ name) ≡ name
unfolding get_last_chunk_of_slashed
get_last_chunk_of_slashed-append prefix name h =
    rw (split-append b'/' prefix name, split_of_Lacks b'/' name h)
      (last_or-append [] name (split b'/' prefix) [])

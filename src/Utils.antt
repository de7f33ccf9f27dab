-- ===== src/Utils.antt =====
-- pkg/utils/utils.go: the functions on names.
pub mod LastChunk
pub mod Multimap
use application_gateway_kube.Common.{Text, bytes, split, last_or, ◌++◌, []}

-- `GetLastChunkOfSlashed`; `strings.Split` never returns an empty slice.
unfoldable pub get_last_chunk_of_slashed : Text → Text
unfolding split
get_last_chunk_of_slashed s = last_or [] (split b'/' s)

-- `GetResourceKey`
unfoldable pub get_resource_key : Text → Text → Text
get_resource_key namespace name = namespace ++ (bytes "/" ++ name)

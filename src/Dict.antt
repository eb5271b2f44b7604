-- ===== src/Dict.antt =====
-- Python's `dict`: entries in order of insertion; a write to a present key keeps its place.
mod Defs
mod Laws
mod Keys
unfoldable pub use Defs.{Dict, empty, get, put, remove, keys, size}
pub use Laws.{
  get-empty, get-put, get-remove, get-put_self, get-put_ne, get-remove_self, get-remove_ne,
  dict_laws, Distinct, Distinct-put, Distinct-remove, size-put_new, size-put_old, size-remove,
  size-remove_absent,
}
pub use Keys.{
  All-keys-get, keys-ne_of_none, Ready, Ready-change, Ready-keys, AllEntries, AllEntries-get,
}

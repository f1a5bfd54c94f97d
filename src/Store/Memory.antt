-- ===== src/Store/Memory.antt =====
-- `InMemoryStore` of internal/store/store.go. Its methods never fail.
use tcpadapter.Common.{List, map, Option, none, Bytes, ok, Result}
use tcpadapter.Common.Dict.{Dict, insert, delete, bytes_key}
use tcpadapter.Store.{SessionSnapshot, Store}

abbrev pub Sessions : Type 0
Sessions = Dict Bytes SessionSnapshot

unfoldable pub save_session : SessionSnapshot → Sessions → Option ⊥ × Sessions
save_session snap m = (none, insert snap.controller_id snap m)

unfoldable pub delete_session : Bytes → Sessions → Option ⊥ × Sessions
delete_session id m = (none, delete id m)

unfoldable pub list_sessions : Sessions → Result ⊥ (List SessionSnapshot)
list_sessions m = ok (map (λ p. p.1) m)

abbrev pub in_memory_store : Store
in_memory_store = record {
  State = Sessions;
  StoreError = ⊥;
  save_session = save_session;
  delete_session = delete_session;
  list_sessions = list_sessions;
}

-- ===== src/Gateway/Pending.antt =====
-- crates/a2g-gateway/src/pending.rs: the queue of pending approvals, the nonce ring, and their
-- snapshot on disk. A hash map is an association list with at most one entry for each key.
use a2g_cli.Base.{
  ℕ, Bool, true, false, not, ◌&&◌, ◌||◌, Option, none, some, List, [], ◌∷◌, ◌++◌, ◌==◌, is_empty,
  length, leb, ltb, any, if◌then◌else◌,
}
use a2g_cli.Base.Int.{ℤ, pos, ltb_ℤ}
use a2g_cli.Base.Text.{Text, text_eq}
use a2g_cli.Platform.{Time}
use a2g_cli.Hitl.Types.{PendingApprovalBinding, ApprovalGrant}

abbrev pub nonce_ring_capacity : ℕ
nonce_ring_capacity = 4096

pub record PendingEntry : Type 0 where
  pub signed_json : Text
  pub binding : PendingApprovalBinding
  pub approved : Bool
  pub grant : Option ApprovalGrant

abbrev pub Entries : Type 0
Entries = List (Text × PendingEntry)

pub record QueueSnapshot : Type 0 where
  pub entries : Entries
  pub nonce_hwm_ms : ℤ

-- `disk` is the file at `persist_path`, none where there is no such path or file; `persistent`
-- says that a path is set, and `disk_writable` whether a save goes through.
pub record PendingQueue : Type 0 where
  pub entries : Entries
  pub nonce_ring : List Text
  pub nonce_hwm_ms : ℤ
  pub loaded_from_prior_session : Bool
  pub persistent : Bool
  pub disk_writable : Bool
  pub disk : Option QueueSnapshot

unfoldable pub new_queue : PendingQueue
new_queue = record {
  entries = [];
  nonce_ring = [];
  nonce_hwm_ms = pos 0;
  loaded_from_prior_session = false;
  persistent = false;
  disk_writable = true;
  disk = none;
}

unfoldable pub lookup_entry : Text → Entries → Option PendingEntry
lookup_entry k [] = none
lookup_entry k ((j, e) ∷ es) = let rest = lookup_entry k es in if text_eq j k then some e else rest

unfoldable pub remove_entry : Text → Entries → Entries
remove_entry k [] = []
remove_entry k ((j, e) ∷ es) =
    let rest = remove_entry k es in if text_eq j k then rest else (j, e) ∷ rest

unfoldable pub insert_entry : Text → PendingEntry → Entries → Entries
unfolding remove_entry
insert_entry k e es = (k, e) ∷ remove_entry k es

unfoldable pub save_if_persistent : PendingQueue → PendingQueue
save_if_persistent q =
    if q.persistent && q.disk_writable
    then record q { disk = some (record { entries = q.entries; nonce_hwm_ms = q.nonce_hwm_ms }) }
    else q

-- `PendingQueue::insert`
unfoldable pub insert_binding : Text → PendingApprovalBinding → PendingQueue → PendingQueue
insert_binding signed_json b q = save_if_persistent (record q {
  entries =
      insert_entry b.binding_id
        (record { signed_json = signed_json; binding = b; approved = false; grant = none })
        q.entries;
})

-- `PendingQueue::get`
unfoldable pub get_entry : Text → PendingQueue → Option PendingEntry
get_entry k q = lookup_entry k q.entries

abbrev approve_entry : ApprovalGrant → PendingEntry → PendingEntry
approve_entry g e = record e { approved = true; grant = some g }

-- `PendingQueue::approve`
unfoldable pub approve : Text → ApprovalGrant → PendingQueue → PendingQueue × Bool
approve k g q = elim (lookup_entry k q.entries) [
  | none ↦ (q, false)
  | some e ↦ (
    save_if_persistent (record q { entries = insert_entry k (approve_entry g e) q.entries }),
    true,
  )
]

-- `PendingQueue::remove`
unfoldable pub remove : Text → PendingQueue → PendingQueue
remove k q = save_if_persistent (record q { entries = remove_entry k q.entries })

-- The entries whose deadline is still ahead.
unfoldable pub live_entries : Time → Entries → Entries
live_entries now [] = []
live_entries now ((k, e) ∷ es) =
    let rest = live_entries now es in
    if ltb now e.binding.ttl_expires_at then (k, e) ∷ rest else rest

-- `PendingQueue::expire`
unfoldable pub expire : Time → PendingQueue → PendingQueue
expire now q =
    let kept = live_entries now q.entries in
    let q' = record q { entries = kept } in
    if length kept == length q.entries then q' else save_if_persistent q'

unfoldable pub nonce_seen : Text → PendingQueue → Bool
nonce_seen n q = any (λ m. text_eq m n) q.nonce_ring

abbrev pub pop_front : List Text → List Text
pop_front [] = []
pop_front (n ∷ ns) = ns

-- The ring's oldest nonce comes first.
unfoldable pub push_nonce : ℕ → Text → List Text → List Text
push_nonce capacity n ring =
    (if leb capacity (length ring) then pop_front ring else ring) ++ (n ∷ [])

unfoldable pub record_nonce : Text → PendingQueue → PendingQueue
record_nonce n q = record q { nonce_ring = push_nonce nonce_ring_capacity n q.nonce_ring }

unfoldable pub record_nonce_with_ts : Text → ℤ → PendingQueue → PendingQueue
unfolding record_nonce
record_nonce_with_ts n issued_at_ms q =
    let q' = record_nonce n q in
    if ltb_ℤ q.nonce_hwm_ms issued_at_ms
    then save_if_persistent
        (record q' { nonce_hwm_ms = issued_at_ms; loaded_from_prior_session = false })
    else q'

unfoldable pub hwm_gate_ms : PendingQueue → Option ℤ
hwm_gate_ms q =
    if q.loaded_from_prior_session && ltb_ℤ (pos 0) q.nonce_hwm_ms
    then some q.nonce_hwm_ms
    else none

-- `PendingQueue::with_persist`, on what the path holds: a restart.
unfoldable pub with_persist : Time → Option QueueSnapshot → Bool → PendingQueue
with_persist now none writable = record new_queue { persistent = true; disk_writable = writable }
with_persist now (some snap) writable =
    let kept = live_entries now snap.entries in
    record {
      entries = kept;
      nonce_ring = [];
      nonce_hwm_ms = snap.nonce_hwm_ms;
      loaded_from_prior_session = not (is_empty kept) || ltb_ℤ (pos 0) snap.nonce_hwm_ms;
      persistent = true;
      disk_writable = writable;
      disk = some snap;
    }

-- ===== src/Raft/FileStore.antt =====
-- The store of internal/storage/wal.go as the `Store` of a node (internal/raft/types.go), and that it
-- loads the hard state that it saved last.
use go_raft_kv.Prelude.{
  ◌≡◌, refl, ap, ◌∙◌, subst, ◌⊎◌, inl, inr, String, Bool, true, false, ◌&&◌, arith, Option, none,
  some, List, [], if◌then◌else◌, ltb,
}
use go_raft_kv.Storage.Types.{LogEntry, HardState, Snapshot}
use go_raft_kv.Storage.Wal.{
  Codec, WalData, WalError, FileRead, reconcile_wal_with_snapshot, read_wal,
}
use go_raft_kv.Storage.Store.{
  JsonFile, absent, invalid, holds, Files, AtomicWrite, replaced, refused, unsynced, Append,
  LoadError, write_atomic, or_zero, zero_hard_state, zero_snapshot, save_hard_state, save_snapshot,
  replace_entries, append_entries, settle, after_read, load_wal, load,
}
use go_raft_kv.Raft.Types.{Error, message, Store}
use go_raft_kv.Raft.Guarantees.Restart.{Loads, Remembers}

abbrev pub Contents : Type 0
Contents = HardState × List LogEntry × Snapshot

-- An error comes with zero values. Its text is not modelled.
unfoldable pub to_loaded :
    {B : Type 0}
    → Files B × (LoadError ⊎ Contents)
    → Files B × Option Error × HardState × List LogEntry × Snapshot
to_loaded (f, inl e) = (f, some (message "load"), zero_hard_state, [], zero_snapshot)
to_loaded (f, inr (hs, log, snap)) = (f, none, hs, log, snap)

abbrev pub to_error : Option String → Option Error
to_error none = none
to_error (some e) = some (message e)

-- The outcomes of the writes, which are any.
pub record Outcomes : Type 0 where
  pub truncate : Option String
  pub rewrite : AtomicWrite
  pub hard_state : AtomicWrite
  pub log : AtomicWrite
  pub snapshot : AtomicWrite
  pub append : Append

unfoldable pub file_store : {B : Type 0} → Codec B → Outcomes → Store (Files B)
unfolding to_loaded load save_hard_state save_snapshot replace_entries append_entries
file_store c o = record {
  load = λ f. to_loaded (load c o.truncate o.rewrite f);
  save_hard_state = λ f hs. let r = save_hard_state o.hard_state hs f in (r.0, to_error r.1);
  append_entries = λ f es. let r = append_entries c o.append es f in (r.0, to_error r.1);
  replace_entries = λ f es. let r = replace_entries c o.log es f in (r.0, to_error r.1);
  save_snapshot = λ f s. let r = save_snapshot o.snapshot s f in (r.0, to_error r.1);
}

module _ {B : Type 0} where
  from_to_loaded :
      (r : Files B × (LoadError ⊎ Contents)) {s : Files B} {hs : HardState} {log : List LogEntry}
      {snap : Snapshot}
      → to_loaded r ≡ (s, none, hs, log, snap)
      → r.1 ≡ inr (hs, log, snap)
  unfolding to_loaded
  from_to_loaded (f, inl e) h =
      let failed : some (message "load") ≡ none = ap (λ x. x.1) h in absurd (ground arith)
  from_to_loaded (f, inr (hs, log, snap)) h = ap (λ x. inr (x.2, x.3, x.4)) h

  to_loaded_lem :
      (r : Files B × (LoadError ⊎ Contents)) {hs : HardState} {log : List LogEntry}
      {snap : Snapshot}
      → r.1 ≡ inr (hs, log, snap)
      → (s : Files B) × (to_loaded r ≡ (s, none, hs, log, snap))
  unfolding to_loaded
  to_loaded_lem (f, x) {hs} {log} {snap} h =
      (f, ap (λ (y : LoadError ⊎ Contents). to_loaded (f, y)) h)

-- The result of a load with another hard state.
abbrev swap : HardState → LoadError ⊎ Contents → LoadError ⊎ Contents
swap hs (inl e) = inl e
swap hs (inr (old, log, snap)) = inr (hs, log, snap)

-- The same choice among results that differ in the hard state.
if-swap :
    {B : Type 0} (b : Bool) (hs : HardState) (x y u v : Files B × (LoadError ⊎ Contents))
    → x.1 ≡ swap hs u.1
    → y.1 ≡ swap hs v.1
    → (if b then x else y).1 ≡ swap hs (if b then u else v).1
if-swap true hs x y u v h k = h
if-swap false hs x y u v h k = k

module _ {B : Type 0} (c : Codec B) where
  -- The hard state only passes through.
  settle-swap :
      (w : AtomicWrite) (old hs : HardState) (snap : Snapshot) (wal : WalData) (f g : Files B)
      → (settle c w hs snap wal g).1 ≡ swap hs (settle c w old snap wal f).1
  unfolding settle write_atomic
  settle-swap replaced old hs snap wal f g =
      if-swap (ltb 0 snap.last_included_index) hs _ _ _ _
        (if-swap (reconcile_wal_with_snapshot wal snap).1 hs _ _ _ _ refl refl)
        (if-swap (wal.has_base && ltb 0 wal.base_index) hs _ _ _ _ refl refl)
  settle-swap (refused e) old hs snap wal f g =
      if-swap (ltb 0 snap.last_included_index) hs _ _ _ _
        (if-swap (reconcile_wal_with_snapshot wal snap).1 hs _ _ _ _ refl refl)
        (if-swap (wal.has_base && ltb 0 wal.base_index) hs _ _ _ _ refl refl)
  settle-swap (unsynced e) old hs snap wal f g =
      if-swap (ltb 0 snap.last_included_index) hs _ _ _ _
        (if-swap (reconcile_wal_with_snapshot wal snap).1 hs _ _ _ _ refl refl)
        (if-swap (wal.has_base && ltb 0 wal.base_index) hs _ _ _ _ refl refl)

  after_read-swap :
      (w : AtomicWrite) (old hs : HardState) (snap : Snapshot) (f g : Files B)
      (r : (WalError ⊎ WalData) × FileRead B)
      → (after_read c w hs snap g r).1 ≡ swap hs (after_read c w old snap f r).1
  unfolding after_read
  after_read-swap w old hs snap f g (inl e, file) = refl
  after_read-swap w old hs snap f g (inr wal, file) =
      settle-swap w old hs snap wal (record f { wal = file }) (record g { wal = file })

  abbrev files : JsonFile HardState → FileRead B → JsonFile Snapshot → Files B
  files h wal s = record { hard_state = h; wal = wal; snapshot = s }

  -- A load that succeeds does so after another hard state was written, and gives that one.
  load-swap :
      (truncate : Option String) (w : AtomicWrite) (hs : HardState) (h : JsonFile HardState)
      (wal : FileRead B) (s : JsonFile Snapshot) {ok : Contents}
      → (load c truncate w (files h wal s)).1 ≡ inr ok
      → (load c truncate w (files (holds hs) wal s)).1
        ≡ swap hs (load c truncate w (files h wal s)).1
  unfolding load or_zero load_wal
  load-swap truncate w hs (invalid e) wal s k = absurd (ground arith)
  load-swap truncate w hs absent wal (invalid e) k = refl
  load-swap truncate w hs (holds old) wal (invalid e) k = refl
  load-swap truncate w hs absent wal absent k =
      after_read-swap w zero_hard_state hs zero_snapshot (files absent wal absent)
        (files (holds hs) wal absent) (read_wal c truncate wal)
  load-swap truncate w hs absent wal (holds snap) k =
      after_read-swap w zero_hard_state hs snap (files absent wal (holds snap))
        (files (holds hs) wal (holds snap)) (read_wal c truncate wal)
  load-swap truncate w hs (holds old) wal absent k =
      after_read-swap w old hs zero_snapshot (files (holds old) wal absent)
        (files (holds hs) wal absent) (read_wal c truncate wal)
  load-swap truncate w hs (holds old) wal (holds snap) k =
      after_read-swap w old hs snap (files (holds old) wal (holds snap))
        (files (holds hs) wal (holds snap)) (read_wal c truncate wal)

  -- The store over the three files, whatever the outcomes of its writes are: if a hard state is saved
  -- without an error and the files could be loaded before, they can be loaded after it, with that hard
  -- state and the same log and snapshot.
  pub file_store-Loads :
      (o : Outcomes) (f f' : Files B) (old hs : HardState) (log : List LogEntry) (snap : Snapshot)
      → Loads (file_store c o) f old log snap
      → (file_store c o).save_hard_state f hs ≡ (f', none)
      → Loads (file_store c o) f' hs log snap
  unfolding file_store save_hard_state write_atomic
  file_store-Loads o f f' old hs log snap (s, loaded) saved =
      let before = from_to_loaded (load c o.truncate o.rewrite f) loaded in
      let after =
        load-swap o.truncate o.rewrite hs f.hard_state f.wal f.snapshot before
        ∙ ap (swap hs) before in
      subst (λ z. Loads (file_store c o) z hs log snap) (stored o.hard_state saved)
        (to_loaded_lem (load c o.truncate o.rewrite (record f { hard_state = holds hs })) after)
    where
      stored :
          (w : AtomicWrite)
          → (let r = save_hard_state w hs f in
              let x : Files B × Option Error = (r.0, to_error r.1) in x ≡ (f', none))
          → record f { hard_state = holds hs } ≡ f'
      stored replaced h = ap (λ x. x.0) h
      stored (refused e) h =
          let failed : some (message e) ≡ none = ap (λ x. x.1) h in absurd (ground arith)
      stored (unsynced e) h =
          let failed : some (message e) ≡ none = ap (λ x. x.1) h in absurd (ground arith)

  pub file_store-Remembers : (o : Outcomes) → Remembers (file_store c o)
  file_store-Remembers o f f' old hs log snap loaded saved =
      file_store-Loads o f f' old hs log snap loaded saved

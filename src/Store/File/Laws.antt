-- ===== src/Store/File/Laws.antt =====
-- The file as a map of sessions, and what a save and a deletion do to it.
use tcpadapter.Common.{
  ◌≡◌, refl, ap, sym, ◌∙◌, inl, inr, Bool, true, false, Option, none, some, Result, ok, err,
  if◌then◌else◌, List, Bytes, Bool-cases, Option-cases, Result-cases, [],
}
use tcpadapter.Common.Dict.{lookup, insert, delete, bytes_key}
use tcpadapter.Store.{SessionSnapshot}
use tcpadapter.Store.Memory.{Sessions}
use tcpadapter.Store.Memory
use tcpadapter.Store.File.{
  Outcomes, Codec, after, read_all, write_all, write_changed, list_sessions, replace_file, rewrite,
  save_session, delete_session, decoded, listed,
}

-- What holds of the stop and of what follows holds of the call.
after-all {ℓ κ} :
    {A : Type ℓ} {F : Type 0} (P : A → Type κ) (o : Option F) (stop : F → A) (next : A)
    → ((x : F) → P (stop x))
    → P next
    → P (after o stop next)
after-all P none stop next a b = b
after-all P (some x) stop next a b = a x

module _ {F Raw : Type 0} (codec : Codec F Raw) where
  -- The sessions that a file stands for: none if there is no file, or an empty one, or one that cannot be decoded.
  abbrev pub sessions_in : Option Raw → Sessions
  sessions_in none = []
  sessions_in (some raw) = elim (codec.is_empty raw) [
    | true ↦ []
    | false ↦ elim (codec.decode raw) [ none ↦ [] | some all ↦ all ]
  ]

  abbrev Reads : Option Raw → Result F Sessions × Option Raw → Type 0
  Reads file (ok all, file') = (all ≡ sessions_in file) × (sessions_in file' ≡ sessions_in file)
  Reads file (err x, file') = sessions_in file' ≡ sessions_in file

  sessions_in-decoded :
      (raw : Raw) (all : Sessions)
      → codec.is_empty raw ≡ false
      → codec.decode raw ≡ some all
      → sessions_in (some raw) ≡ all
  sessions_in-decoded raw all full d = rw (sessions_in, full, d) refl

  sessions_in-undecoded :
      (raw : Raw)
      → codec.is_empty raw ≡ false
      → codec.decode raw ≡ none
      → sessions_in (some raw) ≡ []
  sessions_in-undecoded raw full d = rw (sessions_in, full, d) refl

  sessions_in-empty : (raw : Raw) → codec.is_empty raw ≡ true → sessions_in (some raw) ≡ []
  sessions_in-empty raw e = rw (sessions_in, e) refl

  undecoded-Reads :
      (moved : Bool) (raw : Raw)
      → sessions_in (some raw) ≡ []
      → Reads (some raw) (ok [], if moved then none else some raw)
  undecoded-Reads true raw e = (sym e, sym e)
  undecoded-Reads false raw e = (sym e, refl)

  decoded-Reads :
      (moved : Bool) (raw : Raw)
      → codec.is_empty raw ≡ false
      → Reads (some raw) (decoded codec moved raw)
  unfolding decoded
  decoded-Reads moved raw full = elim (Option-cases (codec.decode raw)) [
    | inr (all, d) ↦ rw (decoded, d) (sym (sessions_in-decoded raw all full d), refl)
    | inl d ↦ rw (decoded, d) (undecoded-Reads moved raw (sessions_in-undecoded raw full d))
  ]

  read_all-Reads : (o : Outcomes F) (file : Option Raw) → Reads file (read_all codec o file)
  unfolding read_all
  read_all-Reads o none = after-all (Reads none) o.read _ _ (λ x. refl) (refl, refl)
  read_all-Reads o (some raw) =
      after-all (Reads (some raw)) o.read _ _ (λ x. refl)
        (elim (Bool-cases (codec.is_empty raw)) [
          | inl b ↦ rw (read_all, b) (sym (sessions_in-empty raw b), refl)
          | inr b ↦ rw (read_all, b) (decoded-Reads o.moved_aside raw b)
        ])

  -- A write without an error leaves the new contents, and one with an error the old file.
  abbrev Replaces : Raw → Option Raw → Option F × Option Raw → Type 0
  Replaces raw file (none, file') = file' ≡ some raw
  Replaces raw file (some x, file') = file' ≡ file

  replace_file-Replaces :
      (o : Outcomes F) (raw : Raw) (file : Option Raw) → Replaces raw file (replace_file o raw file)
  unfolding replace_file
  replace_file-Replaces o raw file =
      let P = Replaces raw file in
      after-all P o.create_temp _ _ (λ x. refl)
        (after-all P o.write _ _ (λ x. refl)
          (after-all P o.sync _ _ (λ x. refl)
            (after-all P o.close _ _ (λ x. refl)
              (after-all P o.chmod _ _ (λ x. refl) (after-all P o.rename _ _ (λ x. refl) refl)))))

  -- What encoding/json makes of these sessions, if anything, is not empty and decodes to the same map.
  abbrev pub Encodes : Sessions → Type 0
  Encodes all =
      (raw : Raw)
      → codec.encode all ≡ ok raw
      → (codec.is_empty raw ≡ false)
        × (copy : Sessions) × (codec.decode raw ≡ some copy)
        × ((k : Bytes) → lookup k copy ≡ lookup k all)

  -- Without an error the file stands for the map `all`, and with one for the map `old`.
  abbrev pub Updates : Sessions → Sessions → Option F × Option Raw → Type 0
  Updates old all (none, file) = (k : Bytes) → lookup k (sessions_in file) ≡ lookup k all
  Updates old all (some x, file) = (k : Bytes) → lookup k (sessions_in file) ≡ lookup k old

  encoded-Updates :
      (all : Sessions) (raw : Raw) (file : Option Raw) (r : Option F × Option Raw)
      → Encodes all
      → codec.encode all ≡ ok raw
      → Replaces raw file r
      → Updates (sessions_in file) all r
  encoded-Updates all raw file (none, file') json e h = λ k.
      let (full, copy, d, same) = json raw e in
      ap (λ file. lookup k (sessions_in file)) h
      ∙ ap (lookup k) (sessions_in-decoded raw copy full d)
      ∙ same k
  encoded-Updates all raw file (some x, file') json e h =
      λ k. ap (λ file. lookup k (sessions_in file)) h

  write_all-Updates :
      (o : Outcomes F) (all : Sessions) (file : Option Raw)
      → Encodes all
      → Updates (sessions_in file) all (write_all codec o all file)
  unfolding write_all
  write_all-Updates o all file json =
      after-all (Updates (sessions_in file) all) o.mkdir _ _ (λ x k. refl)
        (elim (Result-cases (codec.encode all)) [
          | inl (raw, e) ↦
              rw (write_all, e)
                (encoded-Updates all raw file _ json e (replace_file-Replaces o raw file))
          | inr (x, e) ↦ rw (write_all, e) (λ k. refl)
        ])

  write_changed-Updates :
      (o : Outcomes F) (f : Sessions → Sessions) (file : Option Raw)
      (r : Result F Sessions × Option Raw)
      → Encodes (f (sessions_in file))
      → Reads file r
      → Updates (sessions_in file) (f (sessions_in file)) (write_changed codec o f r)
  unfolding write_changed
  write_changed-Updates o f file (err x, file') json h = λ k. rw h refl
  write_changed-Updates o f file (ok all, file') json (same, kept) =
      rw (same, sym kept) (write_all-Updates o (f (sessions_in file')) file' (rw kept json))

  -- A rewrite, whatever the file was and whichever call fails, changes the map that the file stands for by `f` or not at all.
  rewrite-Updates :
      (o : Outcomes F) (f : Sessions → Sessions) (file : Option Raw)
      → Encodes (f (sessions_in file))
      → Updates (sessions_in file) (f (sessions_in file)) (rewrite codec o f file)
  unfolding rewrite
  rewrite-Updates o f file json = write_changed-Updates o f file _ json (read_all-Reads o file)

  -- A list without an error is the one that the memory would give, and the file stands for the same map after it.
  abbrev pub Lists : Sessions → Result F (List SessionSnapshot) × Option Raw → Type 0
  Lists old (ok all, file) = (Memory.list_sessions old ≡ ok all) × (sessions_in file ≡ old)
  Lists old (err x, file) = sessions_in file ≡ old

  listed-Lists :
      (file : Option Raw) (r : Result F Sessions × Option Raw)
      → Reads file r
      → Lists (sessions_in file) (listed codec r)
  unfolding listed Memory.list_sessions
  listed-Lists file (err x, file') h = h
  listed-Lists file (ok all, file') (same, kept) = (rw same refl, kept)

  -- If encoding/json keeps the sessions that are to be written, then whatever the file was before and whichever calls fail, a save and a deletion do to the map that the file stands for what they do in the memory, if no error is returned, and leave it alone if one is; and a list gives what it gives in the memory, or an error, and always leaves the map alone.
  pub file_store-Refines :
      (o : Outcomes F) (snap : SessionSnapshot) (id : Bytes) (file : Option Raw)
      → Encodes (Memory.save_session snap (sessions_in file)).1
      → Encodes (Memory.delete_session id (sessions_in file)).1
      → Updates
          (sessions_in file)
          (Memory.save_session snap (sessions_in file)).1
          (save_session codec o snap file)
        × Updates
            (sessions_in file)
            (Memory.delete_session id (sessions_in file)).1
            (delete_session codec o id file)
        × Lists (sessions_in file) (list_sessions codec o file)
  unfolding save_session delete_session list_sessions Memory.save_session Memory.delete_session
  file_store-Refines o snap id file saved deleted = (
    rewrite-Updates o (insert snap.controller_id snap) file saved,
    rewrite-Updates o (delete id) file deleted,
    listed-Lists file _ (read_all-Reads o file),
  )

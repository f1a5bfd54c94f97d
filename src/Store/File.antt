-- ===== src/Store/File.antt =====
-- `FileStore` of internal/store/store.go. What the file system and encoding/json do is given: each
-- call may fail, and the contents of a file are of any type.
pub mod Laws
use tcpadapter.Common.{
  ℕ, suc, Bool, true, false, List, [], ◌∷◌, Option, none, some, map, Result, ok, err, if◌then◌else◌,
  Bytes,
}
use tcpadapter.Common.Dict.{Dict, insert, delete, bytes_key}
use tcpadapter.Store.{SessionSnapshot, Store}
use tcpadapter.Store.Memory.{Sessions}

-- The errors of the calls of package os in one method, `none` where the call succeeds. `moved_aside` tells
-- whether a file that cannot be decoded could be renamed.
pub record Outcomes (F : Type 0) : Type 0 where
  pub read : Option F
  pub moved_aside : Bool
  pub mkdir : Option F
  pub create_temp : Option F
  pub write : Option F
  pub sync : Option F
  pub close : Option F
  pub chmod : Option F
  pub rename : Option F

-- encoding/json on the map of sessions; `decode` is `none` for an error, and an empty map for a null.
pub record Codec (F Raw : Type 0) : Type 0 where
  pub is_empty : Raw → Bool
  pub encode : Sessions → Result F Raw
  pub decode : Raw → Option Sessions

-- `if err := ...; err != nil { return err }`, and the next calls.
abbrev pub after {ℓ} : {A : Type ℓ} {F : Type 0} → Option F → (F → A) → A → A
after none stop next = next
after (some x) stop next = stop x

-- The temporary file takes the place of the file in the last step only.
unfoldable pub replace_file :
    {F Raw : Type 0} → Outcomes F → Raw → Option Raw → Option F × Option Raw
replace_file {F} {Raw} o raw file =
    let stop : F → Option F × Option Raw = λ x. (some x, file) in
    after o.create_temp stop (
      after o.write stop (
        after o.sync stop
          (after o.close stop (after o.chmod stop (after o.rename stop (none, some raw))))))

-- The file is `none` where there is none at the path. The temporary file and the backups of files that
-- could not be decoded are left out, and so is the message in front of the error of a rename.
module _ {F Raw : Type 0} (codec : Codec F Raw) where
  unfoldable pub decoded : Bool → Raw → Result F Sessions × Option Raw
  decoded moved raw = elim (codec.decode raw) [
    | some all ↦ (ok all, some raw)
    | none ↦ (ok [], if moved then none else some raw)
  ]

  unfoldable pub read_all : Outcomes F → Option Raw → Result F Sessions × Option Raw
  unfolding decoded
  read_all o file =
      after o.read (λ x. (err x, file))
        (elim file [
          | none ↦ (ok [], none)
          | some raw ↦ elim (codec.is_empty raw) [
            | true ↦ (ok [], some raw)
            | false ↦ decoded o.moved_aside raw
          ]
        ])

  unfoldable pub write_all : Outcomes F → Sessions → Option Raw → Option F × Option Raw
  unfolding replace_file
  write_all o all file =
      after o.mkdir (λ x. (some x, file))
        (elim (codec.encode all) [ err x ↦ (some x, file) | ok raw ↦ replace_file o raw file ])

  unfoldable pub write_changed :
      Outcomes F → (Sessions → Sessions) → Result F Sessions × Option Raw → Option F × Option Raw
  unfolding write_all
  write_changed o f (err x, file) = (some x, file)
  write_changed o f (ok all, file) = write_all o (f all) file

  -- What `SaveSession` and `DeleteSession` share.
  unfoldable pub rewrite : Outcomes F → (Sessions → Sessions) → Option Raw → Option F × Option Raw
  unfolding read_all write_changed
  rewrite o f file = write_changed o f (read_all o file)

  unfoldable pub save_session : Outcomes F → SessionSnapshot → Option Raw → Option F × Option Raw
  unfolding rewrite insert
  save_session o snap file = rewrite o (insert snap.controller_id snap) file

  unfoldable pub delete_session : Outcomes F → Bytes → Option Raw → Option F × Option Raw
  unfolding rewrite delete
  delete_session o id file = rewrite o (delete id) file

  unfoldable pub listed :
      Result F Sessions × Option Raw → Result F (List SessionSnapshot) × Option Raw
  listed (err x, file) = (err x, file)
  listed (ok all, file) = (ok (map (λ p. p.1) all), file)

  unfoldable pub list_sessions :
      Outcomes F → Option Raw → Result F (List SessionSnapshot) × Option Raw
  unfolding read_all listed
  list_sessions o file = listed (read_all o file)

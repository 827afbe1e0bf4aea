-- ===== src/Examples/Store.antt =====
-- internal/store/store.go and internal/fs/filesystem.go: small inputs.
use baidu_disk_link.Common.{
  ℕ, ◌+◌, ◌*◌, ◌^◌, ◌≤◌, ◌≡◌, refl, true, false, ◌||◌, none, List, [], ◌∷◌, ◌++◌, arith, ℕ_discrete,
  if◌then◌else◌,
}
use baidu_disk_link.Common.Decimal.{pos}
use baidu_disk_link.Common.Text.{text}
use baidu_disk_link.ChunkStore.Types.{Bytes, Bytes-discrete}
use baidu_disk_link.Remote.Errors.{Outcome, ok, starts_with, lower}
use baidu_disk_link.Baidu.Listing.{RemoteEntry}
use baidu_disk_link.MetadataStore.{Entry, Table, opened, same, find_row}
use baidu_disk_link.MetadataStore.Like.{trim_slashes}
use baidu_disk_link.MetadataStore.Lookup.{view, DistinctPaths}
use baidu_disk_link.MetadataStore.Valid.{has_id, DistinctIds}
use baidu_disk_link.MetadataStore.Run.{
  Operation, ArePlain, IsPlain, upsert, delete, replace, run, mean_all, view_store, IsDistinct,
  HasIds, run-refines, run-IsValid,
}
use baidu_disk_link.MetadataStore.Deletion.{
  left, is_plain, is_text, starts_fresh, delete_path-plain, delete_path-underscore,
}
use baidu_disk_link.Filesystem.{Filesystem}
use baidu_disk_link.Filesystem.Directory.{
  State, refresh_root, root_child_path, refresh_dir, lookup_of, known_missing,
}
use baidu_disk_link.Filesystem.Paths.{base, join_path}
use baidu_disk_link.Filesystem.Directory.Search.{SaysTrue, fails, lookup_of-SaysTrue}
use baidu_disk_link.Filesystem.Directory.Refresh.{expected, parent_of, no_parent, refresh-shows}

-- a row that no table has
fresh_id : Table → ℕ
fresh_id [] = 1
fresh_id (e ∷ rows) = e.id + 1 + fresh_id rows

above : (n : ℕ) (rows : Table) → fresh_id rows ≤ n → has_id n rows ≡ false
unfolding has_id fresh_id
above n [] h = refl
above n (e ∷ rows) h = ground (arith, above n rows)

unused : (rows : Table) → has_id (fresh_id rows) rows ≡ false
unused rows = above (fresh_id rows) rows (omega arith)

abbrev row : ℕ → Bytes → Bytes → Entry
row id path name = record {
  id = id;
  fsid = text "7";
  parent = text "0";
  path = path;
  name = name;
  size = pos 4;
  is_dir = false;
  mtime = pos 0;
  md5 = [];
  last_sync_at = pos 0;
  expires_at = pos 0;
  negative = false;
}

abbrev rows : Table
rows = row 1 (text "/a_b") (text "a_b") ∷ row 2 (text "/axb/c") (text "c") ∷ []

abbrev operations : List Operation
operations = upsert (row 0 (text "/d") (text "d")) ∷ replace (text "7") [] ∷ delete (text "/d") ∷ []

distinct : view (row 2 (text "/axb/c") (text "c") ∷ []) (text "/a_b") ≡ none
unfolding view Bytes-discrete ℕ_discrete
distinct = refl

distinct_rows : DistinctPaths rows
unfolding view
distinct_rows = (distinct, (refl, tt))

distinct_ids : DistinctIds rows
unfolding has_id
distinct_ids = (refl, (refl, tt))

plain_operations : ArePlain operations
unfolding ArePlain IsPlain is_plain trim_slashes
plain_operations = (tt, (tt, (refl, tt)))

run-refines_example :
    view_store (run fresh_id operations (opened rows)) (text "/d")
    ≡ mean_all operations (view rows) (text "/d")
run-refines_example =
    run-refines fresh_id operations rows (text "/d") distinct_rows plain_operations

run-IsValid_example :
    IsDistinct (run fresh_id operations (opened rows))
    × HasIds (run fresh_id operations (opened rows))
run-IsValid_example = run-IsValid fresh_id unused operations rows distinct_rows distinct_ids

plain : is_plain (text "/d") ≡ true
unfolding is_plain
plain = refl

trimmed : trim_slashes (text "/d") ≡ text "/d"
unfolding trim_slashes
trimmed = refl

delete_path-plain_example : find_row (text "/a_b") (left (text "/d") rows) ≡ (
    if same (text "/a_b") (text "/d")
      || starts_with (lower (text "/d" ++ text "/")) (lower (text "/a_b"))
    then none
    else find_row (text "/a_b") rows)
delete_path-plain_example =
    delete_path-plain (text "/d") (text "/a_b") rows plain trimmed (λ e. absurd (cc))

slash_text : is_text (text "/a") ≡ true
unfolding is_text starts_fresh
slash_text = refl

end_text : is_text (text "b") ≡ true
unfolding is_text starts_fresh
end_text = refl

end_fresh : starts_fresh (text "b") ≡ true
unfolding starts_fresh
end_fresh = refl

wild_trimmed : trim_slashes (text "/a_b") ≡ text "/a_b"
unfolding trim_slashes
wild_trimmed = refl

delete_path-underscore_example : find_row (text "/axb/c") (left (text "/a_b") rows) ≡ none
delete_path-underscore_example =
    delete_path-underscore (text "/a") (text "b") (text "c") b'x' rows slash_text end_text end_fresh
      (omega arith) wild_trimmed

abbrev filesystem : Filesystem
filesystem = record {
  has_store = true;
  has_remote = true;
  enable_delete = false;
  root_path = text "/";
  ttl = 60 * 10 ^ 9;
}

abbrev remote_entry : RemoteEntry
remote_entry = record {
  fsid = text "9";
  server_name = text "e";
  path = text "/a_b/e";
  size = pos 3;
  is_dir = false;
  server_mtime = pos 5;
  local_mtime = pos 5;
  md5 = [];
}

abbrev listing : ℕ → Bytes → ℕ × Outcome (List RemoteEntry)
listing w path = (w + 1, ok (remote_entry ∷ []))

abbrev state : State ℕ
state = record { store = opened rows; negative = none; remote = 0 }

refresh-shows_example :
    ((refresh_dir fresh_id listing filesystem 0 (text "/a_b") (text "7") state).1 ≡ none)
    × ((other : Bytes)
        → view_store
            (refresh_dir fresh_id listing filesystem 0 (text "/a_b") (text "7") state).0.store
            other
          ≡ expected filesystem 0 rows
              (text "/a_b")
              (text "7")
              (base (text "/a_b"))
              parent_of
              (λ e. e.path)
              (remote_entry ∷ [])
              other)
    × ((refresh_root fresh_id listing filesystem 0 state).1 ≡ none)
    × ((other : Bytes)
        → view_store (refresh_root fresh_id listing filesystem 0 state).0.store other
          ≡ expected filesystem 0 rows
              (text "/")
              (text "0")
              []
              no_parent
              (root_child_path (text "/"))
              (remote_entry ∷ [])
              other)
refresh-shows_example =
    refresh-shows fresh_id listing filesystem 0 (text "/a_b") (text "7") state rows
      (remote_entry ∷ []) (remote_entry ∷ []) refl refl refl distinct_rows refl refl

lookup_of-SaysTrue_example :
    SaysTrue fresh_id listing
      (known_missing fresh_id listing (join_path (text "/") (text "d")) 0 state).1
      (fails fresh_id listing
        (refresh_dir fresh_id listing filesystem 0 (text "/") (text "0"))
        (λ s. true)
        (text "/")
        (known_missing fresh_id listing (join_path (text "/") (text "d")) 0 state).0)
      0
      (text "/")
      (text "d")
      (lookup_of fresh_id listing filesystem
        (refresh_dir fresh_id listing filesystem 0 (text "/") (text "0"))
        (λ s. true)
        0
        (text "/")
        (text "d")
        state).0
      (lookup_of fresh_id listing filesystem
        (refresh_dir fresh_id listing filesystem 0 (text "/") (text "0"))
        (λ s. true)
        0
        (text "/")
        (text "d")
        state).1
lookup_of-SaysTrue_example =
    lookup_of-SaysTrue fresh_id listing filesystem
      (refresh_dir fresh_id listing filesystem 0 (text "/") (text "0")) (λ s. true) 0 (text "/")
      (text "d") state refl

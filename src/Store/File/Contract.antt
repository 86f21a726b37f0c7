-- ===== src/Store/File/Contract.antt =====
-- `BaseFileStore` of persista/store/file.py keeps the contract of a store.
use persista.Common.{
  ℤ, Bool, true, false, String, text_keys, Option, none, List, [], ◌∷◌, ◌≡◌, refl, ok, err,
  runtime_error, is_some, arith, ◌&&◌, if◌then◌else◌,
}
use persista.Dict
use persista.Dict.{Dict}
use persista.Store.Types.{OnConflict, Fields, Object}
use persista.Store.Normalize.{name, normalize-name}
use persista.Store.Conflicts.{member}
use persista.Store.Conflicts.Members.{member-select}
use persista.Store.Spec
use persista.Store.Spec.{View}
use persista.Store.Base.{BaseStore, IsStore, Becomes, without, without_key}
use persista.Store.Writes.{IsWriter, set_resolved-Becomes, nothing-Becomes}
use persista.Store.Writes
use persista.Store.File
use persista.Store.File.{FileStore, Files, IsFiles, Naming, ends_with}
use persista.Store.File.Reads
use persista.Store.File.Reads.{
  IsNaming, closed, ends_with-append, path-eq, get_open, get_many_open, contains_open,
  contains_many_open,
}

module _ {V : Type 0} ⦃o : Object V⦄ (files : Files V) (naming : Naming)
    (batchify : List (String × Fields V) → ℤ → List (List (String × Fields V))) where
  -- the class, as a store
  abbrev pub file_store : BaseStore V
  file_store = record {
    State = FileStore files.Fs;
    closed = λ s. s.closed;
    open_store = File.open_store files naming;
    close = File.close files naming;
    get = File.get files naming;
    get_many = File.get_many files naming;
    set = λ k v c. File.set files naming k v (name c);
    set_many = λ items c. File.set_many files naming items (name c);
    delete = File.delete files naming;
    delete_many = File.delete_many files naming;
    clear = File.clear files naming;
    contains = File.contains files naming;
    contains_many = File.contains_many files naming;
    keys = File.keys files naming;
    count = File.count files naming;
    iter_batches = File.iter_batches files naming batchify;
    filter = File.filter files naming batchify;
  }

module _ {V : Type 0} (files : Files V) (naming : Naming)
    {content : files.Fs → String → Option (Fields V)} (laws : IsFiles files content)
    (quoting : IsNaming naming) where
  abbrev view : FileStore files.Fs → View V
  view = Reads.view files naming laws quoting

  abbrev path : String → String
  path = File.key_to_path files naming

  abbrev shut : FileStore files.Fs → Bool
  shut = closed files naming laws quoting

  save_item_open :
      (s : FileStore files.Fs) (k : String) (v : Fields V)
      → File.save_item files naming k v s
        ≡ (ok tt, record s { fs = (files.save (path k) v s.fs).1 })
  unfolding File.save_item
  save_item_open s k v = ground (arith, laws.saves s.fs (path k) v)

  save_all_open :
      (s : FileStore files.Fs) (items : Dict String (Fields V))
      → s.closed ≡ false
      → Dict.IsDistinct items
      → Becomes shut view
          (File.save_all files naming items s)
          (ok tt, Spec.after_write OnConflict.overwrite items (view s))
  unfolding File.save_all Spec.after_write Spec.resolved Dict.get
  save_all_open s [] h d = record { result = refl; stays_open = h; shows = λ j. refl }
  save_all_open s ((k, v) ∷ items) h d =
      let s1 = record s { fs = (files.save (path k) v s.fs).1 } in
      let more = save_all_open s1 items h d.1 in
      let q : File.save_all files naming ((k, v) ∷ items) s ≡ File.save_all files naming items s1 =
        ground (arith, save_item_open s k v) in
      rw q (record {
        result = more.result;
        stays_open = more.stays_open;
        shows = λ j. ground (
          arith,
          more.shows j,
          laws.content_save s.fs (path k) (path j) v,
          path-eq files naming laws quoting k j,
          text_keys.test_iff k j,
        );
      })

  file_store-IsWriter :
      IsWriter shut view
        (File.get files naming)
        (File.contains_many files naming)
        (File.save_all files naming)
  file_store-IsWriter = record {
    reads = get_open files naming laws quoting;
    finds = contains_many_open files naming laws quoting;
    writes = save_all_open;
  }

  set_many_open :
      (s : FileStore files.Fs) (items : Dict String (Fields V)) (c : OnConflict)
      → s.closed ≡ false
      → Dict.IsDistinct items
      → Becomes shut view
          (File.set_many files naming items (name c) s)
          (Spec.set_many c items (view s))
  unfolding File.set_many
  set_many_open s [] c h d =
      let q : File.check_open files naming s ≡ (ok tt, s) = ground arith in
      rw q (nothing-Becomes s c h)
  set_many_open s (item ∷ items) c h d =
      let q : File.set_many files naming (item ∷ items) (name c) s
          ≡ Writes.set_resolved (File.get files naming) (File.contains_many files naming)
              (File.save_all files naming) (item ∷ items) c s =
        ground (arith, normalize-name c) in
      rw q (set_resolved-Becomes file_store-IsWriter s h (item ∷ items) d c)

  set_open :
      (s : FileStore files.Fs) (k : String) (v : Fields V) (c : OnConflict)
      → s.closed ≡ false
      → Becomes shut view
          (File.set files naming k v (name c) s)
          (Spec.set_many c ((k, v) ∷ []) (view s))
  unfolding File.set Dict.get
  set_open s k v c h = set_many_open s ((k, v) ∷ []) c h (refl, tt)

  delete_open :
      (s : FileStore files.Fs) (k : String)
      → s.closed ≡ false
      → Becomes shut view (File.delete files naming k s) (ok tt, without_key k (view s))
  unfolding File.delete
  delete_open s k h =
      let q : File.delete files naming k s ≡ (ok tt, record s { fs = files.unlink s.fs (path k) }) =
        ground arith in
      rw q (record {
        result = refl;
        stays_open = h;
        shows = λ j. ground (
          arith,
          laws.content_unlink s.fs (path k) (path j),
          path-eq files naming laws quoting k j,
        );
      })

  delete_many_open :
      (s : FileStore files.Fs) (ks : List String)
      → s.closed ≡ false
      → Becomes shut view (File.delete_many files naming ks s) (ok tt, without ks (view s))
  unfolding File.delete_many member
  delete_many_open s [] h = record { result = refl; stays_open = h; shows = λ j. refl }
  delete_many_open s (k ∷ ks) h =
      let first = delete_open s k h in
      let more = delete_many_open (File.delete files naming k s).1 ks first.stays_open in
      let q : File.delete_many files naming (k ∷ ks) s
          ≡ File.delete_many files naming ks (File.delete files naming k s).1 =
        ground (arith, first.result) in
      rw q (record {
        result = more.result;
        stays_open = more.stays_open;
        shows = λ j. ground (arith, more.shows j, first.shows j);
      })

  content-unlink_all :
      (ns : List String) (d : files.Fs) (m : String)
      → content (File.unlink_all files naming ns d) m ≡ (if member ns m then none else content d m)
  unfolding File.unlink_all member
  content-unlink_all [] d m = refl
  content-unlink_all (n ∷ ns) d m =
      ground (arith, content-unlink_all ns (files.unlink d n) m, laws.content_unlink d n m)

  -- the file of a key is among those of the store
  member-iter_files :
      (d : files.Fs) (k : String)
      → is_some (content d (path k)) ≡ true
      → member (File.iter_files files naming d) (path k) ≡ true
  unfolding File.iter_files File.key_to_path
  member-iter_files d k e = ground (
    arith,
    member-select (λ n. files.is_file d n && ends_with n naming.extension) (files.names d) (path k),
    laws.file_content d (path k),
    laws.file_names d (path k),
    ends_with-append (naming.quote k) naming.extension,
  )

  clear_open :
      (s : FileStore files.Fs)
      → s.closed ≡ false
      → Becomes shut view (File.clear files naming s) (ok tt, λ k. none)
  unfolding File.clear
  clear_open s h =
      let ns = File.iter_files files naming s.fs in
      let q : File.clear files naming s
          ≡ (ok tt, record s { fs = File.unlink_all files naming ns s.fs }) =
        ground arith in
      rw q (record {
        result = refl;
        stays_open = h;
        shows = λ j. ground (arith, content-unlink_all ns s.fs (path j), member-iter_files s.fs j);
      })

  open_store_open :
      (s : FileStore files.Fs) → s.closed ≡ false → File.open_store files naming s ≡ (ok tt, s)
  unfolding File.open_store
  open_store_open s h = ground arith

  open_store-closed : (s : FileStore files.Fs) → (File.open_store files naming s).1.closed ≡ false
  unfolding File.open_store
  open_store-closed s = ground arith

  get_closed :
      (s : FileStore files.Fs) (k : String)
      → s.closed ≡ true
      → File.get files naming k s ≡ (err runtime_error, s)
  unfolding File.get
  get_closed s k h = ground arith

  set_closed :
      (s : FileStore files.Fs) (k : String) (v : Fields V) (c : OnConflict)
      → s.closed ≡ true
      → File.set files naming k v (name c) s ≡ (err runtime_error, s)
  unfolding File.set
  set_closed s k v c h = ground arith

  delete_closed :
      (s : FileStore files.Fs) (k : String)
      → s.closed ≡ true
      → File.delete files naming k s ≡ (err runtime_error, s)
  unfolding File.delete
  delete_closed s k h = ground arith

  clear_closed :
      (s : FileStore files.Fs)
      → s.closed ≡ true
      → File.clear files naming s ≡ (err runtime_error, s)
  unfolding File.clear
  clear_closed s h = ground arith

module _ {V : Type 0} ⦃o : Object V⦄ (files : Files V) (naming : Naming)
    (batchify : List (String × Fields V) → ℤ → List (List (String × Fields V)))
    {content : files.Fs → String → Option (Fields V)} (laws : IsFiles files content)
    (quoting : IsNaming naming) where
  -- If what is saved loads as what it was, and what is quoted can be unquoted, the file store keeps
  -- the contract of a store, with what the file of a key contains as the view.
  pub file_store-IsStore :
      IsStore (file_store files naming batchify) (Reads.view files naming laws quoting)
  unfolding File.close
  file_store-IsStore = record {
    opens = open_store-closed files naming laws quoting;
    reopens = open_store_open files naming laws quoting;
    closes = λ s. refl;
    reads = get_open files naming laws quoting;
    reads_many = get_many_open files naming laws quoting;
    finds = contains_open files naming laws quoting;
    finds_many = contains_many_open files naming laws quoting;
    sets = set_open files naming laws quoting;
    sets_many = set_many_open files naming laws quoting;
    deletes = delete_open files naming laws quoting;
    deletes_many = delete_many_open files naming laws quoting;
    clears = clear_open files naming laws quoting;
    get_closed = get_closed files naming laws quoting;
    set_closed = set_closed files naming laws quoting;
    delete_closed = delete_closed files naming laws quoting;
    clear_closed = clear_closed files naming laws quoting;
  }

-- ===== src/Store/File/Reads.antt =====
-- The paths of persista/store/file.py, and what the reading methods return.
use persista.Common.{
  ◌+◌, ◌-◌, Bool, true, false, String, text_keys, Option, none, some, List, [], ◌∷◌, ◌==◌, ==_refl,
  map, ◌≡◌, refl, ok, is_some, arith, ap, Bool-cases, inl, inr, ◌∙◌, sym,
}
use Prim.Native.String as Text
use text.Mathlib.TextPositions.{len-append, slice-append_right}
use text.Mathlib.TextLemmas.{append_cancel_right}
use persista.Store.Types.{Fields}
use persista.Store.Spec.{View}
use persista.Store.File
use persista.Store.File.{FileStore, Files, IsFiles, Naming, ends_with}

-- What is quoted can be unquoted.
pub record IsNaming (naming : Naming) : Type 0 where
  pub round_trip : (k : String) → naming.unquote (naming.quote k) ≡ k

pub ends_with-append : (s t : String) → ends_with (Text.◌++◌ s t) t ≡ true
unfolding ends_with
ends_with-append s t =
    let back : (Text.len s + Text.len t) - Text.len t ≡ Text.len s = omega arith in
    rw (len-append s t, back, slice-append_right s t, ==_refl t) (ground arith)

module _ {V : Type 0} (files : Files V) (naming : Naming)
    {content : files.Fs → String → Option (Fields V)} (laws : IsFiles files content)
    (quoting : IsNaming naming) where
  abbrev pub path : String → String
  path = File.key_to_path files naming

  abbrev pub view : FileStore files.Fs → View V
  view s k = content s.fs (path k)

  abbrev pub closed : FileStore files.Fs → Bool
  closed s = s.closed

  path-inj : (j k : String) → path j ≡ path k → j ≡ k
  unfolding File.key_to_path
  path-inj j k e =
      sym (quoting.round_trip j)
      ∙ ap naming.unquote (append_cancel_right (naming.quote j) (naming.quote k) naming.extension e)
      ∙ quoting.round_trip k

  -- two keys have the same path only if they are the same
  pub path-eq : (j k : String) → (path j == path k) ≡ (j == k)
  path-eq j k = elim (Bool-cases (j == k)) [
    | inl t ↦ rw (t, (text_keys.test_iff j k).0 t) (==_refl (path k))
    | inr f ↦ elim (Bool-cases (path j == path k)) [
      | inl t ↦ ground (
        arith,
        (text_keys.test_iff j k).1 (path-inj j k ((text_keys.test_iff (path j) (path k)).0 t)),
      )
      | inr g ↦ rw (f, g) refl
    ]
  ]

  load_if_file-content :
      (d : files.Fs) (n : String) (c : Option (Fields V))
      → content d n ≡ c
      → File.load_if_file files naming d n ≡ ok c
  unfolding File.load_if_file
  load_if_file-content d n none e = ground (arith, laws.file_content d n)
  load_if_file-content d n (some v) e =
      ground (arith, laws.file_content d n, laws.load_content d n v e)

  pub get_open :
      (s : FileStore files.Fs) (k : String)
      → s.closed ≡ false
      → File.get files naming k s ≡ (ok (view s k), s)
  unfolding File.get
  get_open s k h = ground (arith, load_if_file-content s.fs (path k) _ refl)

  pub contains_open :
      (s : FileStore files.Fs) (k : String)
      → s.closed ≡ false
      → File.contains files naming k s ≡ (ok (is_some (view s k)), s)
  unfolding File.contains
  contains_open s k h = ground (arith, laws.file_content s.fs (path k))

  pub get_many_open :
      (s : FileStore files.Fs) (ks : List String)
      → s.closed ≡ false
      → File.get_many files naming ks s ≡ (ok (map (view s) ks), s)
  unfolding File.get_many
  get_many_open s [] h = refl
  get_many_open s (k ∷ ks) h = rw (get_open s k h, get_many_open s ks h) refl

  pub contains_many_open :
      (s : FileStore files.Fs) (ks : List String)
      → s.closed ≡ false
      → File.contains_many files naming ks s ≡ (ok (map (λ k. is_some (view s k)) ks), s)
  unfolding File.contains_many
  contains_many_open s [] h = refl
  contains_many_open s (k ∷ ks) h = rw (contains_open s k h, contains_many_open s ks h) refl

-- ===== src/Vfs/Path.antt =====
-- fs/vfs.c: vfs_lookup goes through the names between the slashes of a path.
use snap_os.Prelude.{
  ℕ, zero, suc, ◌+◌, ◌≤◌, ◌<◌, ◌≡◌, refl, sym, ap, ◌∙◌, true, false, ◌==◌, if◌then◌else◌, if_false,
  Bool-cases, inl, inr, arith, Option, some, none, List, [], ◌∷◌, enotdir, Exec, ok, panic, fault,
  out_of_fuel, ◌>>=◌,
}
use snap_os.Strings.Compare.{IsString}
use snap_os.Vfs.{
  Vfs, DentryPtr, dentry_ptr, dentry_err, s_isdir, slash, skip_slashes, find_delim, token_of,
  path_loop, vfs_lookup, vfs_lookup_direct,
}

-- The parts of a path between its slashes, each by its first character and the one behind its last,
-- with `k` characters left from `i` on, in a part that started at `open`, if in one.
unfoldable pub words : (k i : ℕ) → (begun : Option ℕ) → (path : ℕ → ℕ) → List (ℕ × ℕ)
words zero i none path = []
words zero i (some start) path = (start, i) ∷ []
words (suc k) i none path =
    let skipped = words k (i + 1) none path in
    let begun = words k (i + 1) (some i) path in if path i == slash then skipped else begun
words (suc k) i (some start) path =
    let closed = words k (i + 1) none path in
    let longer = words k (i + 1) (some start) path in
    if path i == slash then (start, i) ∷ closed else longer

-- From entry to entry, one name after the other.
unfoldable pub walk :
    (fuel : ℕ) → (path : ℕ → ℕ) → List (ℕ × ℕ) → Vfs → (cur : ℕ) → Exec (DentryPtr × Vfs)
walk fuel path [] v cur = ok (dentry_ptr cur, v)
walk fuel path ((start, stop) ∷ rest) v cur =
    let next : DentryPtr × Vfs → Exec (DentryPtr × Vfs) = λ r. elim r.0 [
      | dentry_err x ↦ ok (dentry_err x, r.1)
      | dentry_ptr d ↦ walk fuel path rest r.1 d
    ] in
    let walked = vfs_lookup_direct fuel v cur (token_of path start stop) >>= next in
    if s_isdir (v.dentries cur).inode.mode then walked else ok (dentry_err enotdir, v)

bind_cong {ℓ κ} :
    {A : Type ℓ} {B : Type κ} (m : Exec A) {f g : A → Exec B}
    → ((a : A) → f a ≡ g a)
    → (m >>= f) ≡ (m >>= g)
bind_cong (ok a) h = h a
bind_cong panic h = refl
bind_cong fault h = refl
bind_cong out_of_fuel h = refl

-- Two ways on from a child that was found agree.
child_cong :
    (f g : Vfs → ℕ → Exec (DentryPtr × Vfs))
    → ((v : Vfs) (c : ℕ) → f v c ≡ g v c)
    → (r : DentryPtr × Vfs)
    → ◌≡◌ {A = Exec (DentryPtr × Vfs)}
        (elim r.0 [ dentry_err x ↦ ok (dentry_err x, r.1) | dentry_ptr c ↦ f r.1 c ])
        (elim r.0 [ dentry_err x ↦ ok (dentry_err x, r.1) | dentry_ptr c ↦ g r.1 c ])
child_cong f g h (dentry_err x, v) = refl
child_cong f g h (dentry_ptr c, v) = h v c

module _ (path : ℕ → ℕ) (m : ℕ) (is : IsString path m) where
  -- Where the slashes from `i` on end.
  record Skipped (k i : ℕ) (r : Exec ℕ) : Type 0 where
    j : ℕ
    left : ℕ
    result : r ≡ ok j
    place : j + left ≡ m
    fewer : left ≤ k
    same_words : words k i none path ≡ words left j none path
    no_slash : (path j == slash) ≡ false

  skip_slashes-Skipped : (len k i : ℕ) → i + k ≡ m → k < len → Skipped k i (skip_slashes len i path)
  unfolding skip_slashes words
  skip_slashes-Skipped zero k i e lt = absurd (omega arith)
  skip_slashes-Skipped (suc len) zero i e lt =
      let stop : (path i == slash) ≡ false =
        let h = is.ends in let q : i ≡ m = omega arith in rw q (ground (arith, h)) in
      rw stop (record {
        j = i;
        left = 0;
        result = refl;
        place = e;
        fewer = omega arith;
        same_words = refl;
        no_slash = stop;
      })
  skip_slashes-Skipped (suc len) (suc k) i e lt = elim (Bool-cases (path i == slash)) [
    | inl at_slash ↦
        let s = skip_slashes-Skipped len k (i + 1) (omega arith) (omega arith) in
        record {
          j = s.j;
          left = s.left;
          place = s.place;
          fewer = omega (arith, s.fewer);
          no_slash = s.no_slash;
          result = rw at_slash s.result;
          same_words = rw at_slash s.same_words;
        }
    | inr off ↦ record {
      j = i;
      left = suc k;
      place = e;
      fewer = omega arith;
      no_slash = off;
      same_words = refl;
      result = rw off refl;
    }
  ]

  -- Where the name from `start` on ends.
  record Delimited (k i start : ℕ) (r : Exec ℕ) : Type 0 where
    j : ℕ
    left : ℕ
    result : r ≡ ok j
    place : j + left ≡ m
    fewer : left ≤ k
    same_words : words k i (some start) path ≡ (start, j) ∷ words left j none path

  find_delim-Delimited :
      (len k i start : ℕ) → i + k ≡ m → k < len → Delimited k i start (find_delim len i path)
  unfolding find_delim words
  find_delim-Delimited zero k i start e lt = absurd (omega arith)
  find_delim-Delimited (suc len) zero i start e lt =
      let stop : (path i == 0) ≡ true =
        let h = is.ends in let q : i ≡ m = omega arith in rw q (ground (arith, h)) in
      record {
        j = i;
        left = 0;
        place = e;
        fewer = omega arith;
        same_words = refl;
        result = rw stop refl;
      }
  find_delim-Delimited (suc len) (suc k) i start e lt =
      let on : (path i == 0) ≡ false = let h = is.chars i (omega arith) in ground arith in
      elim (Bool-cases (path i == slash)) [
        | inl at_slash ↦ record {
          j = i;
          left = suc k;
          place = e;
          fewer = omega arith;
          result = rw (on, at_slash) refl;
          same_words = rw at_slash refl;
        }
        | inr off ↦
            let d = find_delim-Delimited len k (i + 1) start (omega arith) (omega arith) in
            record {
              j = d.j;
              left = d.left;
              place = d.place;
              fewer = omega (arith, d.fewer);
              result = rw (on, off) d.result;
              same_words = rw off d.same_words;
            }
      ]

  at_end : (i : ℕ) → i + 0 ≡ m → (path i == 0) ≡ true
  at_end i e = let h = is.ends in let q : i ≡ m = omega arith in rw q (ground (arith, h))

  found_later :
      (len i j : ℕ)
      → (path i == 0) ≡ false
      → (path i == slash) ≡ false
      → find_delim len (i + 1) path ≡ ok j
      → find_delim (suc len) i path ≡ ok j
  unfolding find_delim
  found_later len i j on off later = rw (on, off) later

  -- One round of the loop is one name of the path.
  round_walk :
      (rounds len fuel i stop j : ℕ) (rest : List (ℕ × ℕ)) (v : Vfs) (cur : ℕ)
      → (path i == 0) ≡ false
      → find_delim len i path ≡ ok stop
      → skip_slashes len stop path ≡ ok j
      → ((v1 : Vfs) (c : ℕ) → path_loop rounds len fuel j path v1 c ≡ walk fuel path rest v1 c)
      → path_loop (suc rounds) len fuel i path v cur ≡ walk fuel path ((i, stop) ∷ rest) v cur
  unfolding path_loop walk
  round_walk rounds len fuel i stop j rest v cur on found skipped next =
      elim (Bool-cases (s_isdir (v.dentries cur).inode.mode)) [
        | inl dir ↦
            let after : (r : DentryPtr × Vfs) → _ =
              child_cong
                (λ v1 c. skip_slashes len stop path >>= λ j. path_loop rounds len fuel j path v1 c)
                (λ v1 c. walk fuel path rest v1 c) (λ v1 c. rw skipped (next v1 c)) in
            rw (on, dir, found)
              (bind_cong (vfs_lookup_direct fuel v cur (token_of path i stop)) after)
        | inr no_dir ↦ rw (on, no_dir) refl
      ]

  path_loop-walk :
      (rounds len fuel k i : ℕ) (v : Vfs) (cur : ℕ)
      → i + k ≡ m
      → k ≤ rounds
      → m < len
      → (path i == slash) ≡ false
      → path_loop rounds len fuel i path v cur ≡ walk fuel path (words k i none path) v cur
  unfolding path_loop walk words
  path_loop-walk zero len fuel zero i v cur e le lt off = rw (at_end i e) refl
  path_loop-walk (suc rounds) len fuel zero i v cur e le lt off = rw (at_end i e) refl
  path_loop-walk zero len fuel (suc k) i v cur e le lt off = absurd (omega arith)
  path_loop-walk (suc rounds) zero fuel (suc k) i v cur e le lt off = absurd (omega arith)
  path_loop-walk (suc rounds) (suc len) fuel (suc k) i v cur e le lt off =
      let on : (path i == 0) ≡ false = let h = is.chars i (omega arith) in ground arith in
      let d = find_delim-Delimited len k (i + 1) i (omega arith) (omega arith) in
      let s = skip_slashes-Skipped (suc len) d.left d.j d.place (omega (arith, d.fewer)) in
      let found : find_delim (suc len) i path ≡ ok d.j = found_later len i d.j on off d.result in
      let split : words (suc k) i none path ≡ (i, d.j) ∷ words s.left s.j none path =
        if_false (path i == slash) _ off (d.same_words ∙ ap (λ w. (i, d.j) ∷ w) s.same_words) in
      let next = λ (v1 : Vfs) (c : ℕ).
        path_loop-walk rounds (suc len) fuel s.left s.j v1 c s.place
          (omega (arith, s.fewer, d.fewer)) lt s.no_slash in
      round_walk rounds (suc len) fuel i d.j s.j (words s.left s.j none path) v cur on found
        s.result next
      ∙ ap (λ w. walk fuel path w v cur) (sym split)

-- vfs_lookup goes from the root through the names of the path, whatever slashes stand before, between
-- and behind them. The path is a string of `m` characters.
pub vfs_lookup-walk :
    (path : ℕ → ℕ) (m : ℕ) (is : IsString path m) (fuel : ℕ) (v : Vfs)
    → vfs_lookup (suc m) fuel path v ≡ walk fuel path (words m 0 none path) v v.vfs_root
unfolding vfs_lookup
vfs_lookup-walk path m is fuel v =
    let s = skip_slashes-Skipped path m is (suc m) m 0 (omega arith) (omega arith) in
    rw (s.result, s.same_words)
      (path_loop-walk path m is (suc m) (suc m) fuel s.left s.j v v.vfs_root s.place
        (omega (arith, s.fewer)) (omega arith) s.no_slash)

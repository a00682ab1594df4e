-- ===== src/Memory/Filesystem/Collects.antt =====
-- What is read back of two lists, one after the other: fmemory/src/backends/filesystem.rs.
use fiddlesticks.Base.{List, [], ◌∷◌, ◌++◌, ◌≡◌, refl, ap, ◌∙◌, string_eq}
use fiddlesticks.Exec.{collect_map, Result, ok, err, no_return, and_then}

module _ {E B : Type 0} where
  abbrev cons_ok : Result E B → Result E (List B) → Result E (List B)
  cons_ok y zs = and_then y (λ b. and_then zs (λ bs. ok (b ∷ bs)))

  abbrev append_ok : Result E (List B) → Result E (List B) → Result E (List B)
  append_ok zs ws = and_then zs (λ bs. and_then ws (λ cs. ok (bs ++ cs)))

  cons-append_ok :
      (y : Result E B) (zs ws : Result E (List B))
      → cons_ok y (append_ok zs ws) ≡ append_ok (cons_ok y zs) ws
  cons-append_ok (ok b) (ok bs) (ok cs) = refl
  cons-append_ok (ok b) (ok bs) (err e) = refl
  cons-append_ok (ok b) (ok bs) no_return = refl
  cons-append_ok (ok b) (err e) ws = refl
  cons-append_ok (ok b) no_return ws = refl
  cons-append_ok (err e) zs ws = refl
  cons-append_ok no_return zs ws = refl

  nil-append_ok : (ws : Result E (List B)) → ws ≡ append_ok (ok []) ws
  nil-append_ok (ok cs) = refl
  nil-append_ok (err e) = refl
  nil-append_ok no_return = refl

module _ {E A B : Type 0} (f : A → Result E B) where
  collect_map-append :
      (xs ys : List A) → collect_map f (xs ++ ys) ≡ append_ok (collect_map f xs) (collect_map f ys)
  unfolding collect_map
  collect_map-append [] ys = nil-append_ok (collect_map f ys)
  collect_map-append (x ∷ xs) ys =
      ap (cons_ok (f x)) (collect_map-append xs ys)
      ∙ cons-append_ok (f x) (collect_map f xs) (collect_map f ys)

  pub append_reads :
      (xs ys : List A) (bs cs : List B)
      → collect_map f xs ≡ ok bs
      → collect_map f ys ≡ ok cs
      → collect_map f (xs ++ ys) ≡ ok (bs ++ cs)
  append_reads xs ys bs cs h k = collect_map-append xs ys ∙ rw (h, k) refl

  pub one_reads : (x : A) (b : B) → f x ≡ ok b → collect_map f (x ∷ []) ≡ ok (b ∷ [])
  unfolding collect_map
  one_reads x b h = rw h refl

-- ===== src/History/Rows.antt =====
-- What inserts, updates and deletes do to a test of the rows of a table.
use askrelay.Base.{◌≡◌, refl, Bool, true, false, none, List, [], ◌∷◌, arith}
use askrelay.Base.Table.{find, exists, delete, update, affected, select}

module _ {ℓ} {A : Type ℓ} where
  -- A test that an update makes no row pass passes no row after it.
  pub exists-update-false :
      (q p : A → Bool) (f : A → A) (rs : List A)
      → ((a : A) → q a ≡ false → q (f a) ≡ false)
      → exists q rs ≡ false
      → exists q (update p f rs) ≡ false
  exists-update-false q p f [] keep h = refl
  exists-update-false q p f (r ∷ rs) keep h =
      ground (arith, keep r, exists-update-false q p f rs keep)

  pub exists-update-true :
      (q p : A → Bool) (f : A → A) (rs : List A)
      → ((a : A) → q a ≡ true → q (f a) ≡ true)
      → exists q rs ≡ true
      → exists q (update p f rs) ≡ true
  exists-update-true q p f [] keep h = h
  exists-update-true q p f (r ∷ rs) keep h =
      ground (arith, keep r, exists-update-true q p f rs keep)

  pub exists-delete-false :
      (q p : A → Bool) (rs : List A) → exists q rs ≡ false → exists q (delete p rs) ≡ false
  exists-delete-false q p [] h = refl
  exists-delete-false q p (r ∷ rs) h = ground (arith, exists-delete-false q p rs)

  -- A row that a deletion does not hit stays.
  pub exists-delete-true :
      (q p : A → Bool) (rs : List A)
      → ((a : A) → q a ≡ true → p a ≡ false)
      → exists q rs ≡ true
      → exists q (delete p rs) ≡ true
  exists-delete-true q p [] spare h = h
  exists-delete-true q p (r ∷ rs) spare h = ground (arith, spare r, exists-delete-true q p rs spare)

  -- An update of all the rows that pass a test leaves none that passes.
  pub exists-update-all :
      (q : A → Bool) (f : A → A) (rs : List A)
      → ((a : A) → q a ≡ true → q (f a) ≡ false)
      → exists q (update q f rs) ≡ false
  exists-update-all q f [] hit = refl
  exists-update-all q f (r ∷ rs) hit = ground (arith, hit r, exists-update-all q f rs hit)

  pub find-none : (q : A → Bool) (rs : List A) → exists q rs ≡ false → find q rs ≡ none
  find-none q [] h = refl
  find-none q (r ∷ rs) h = ground (arith, find-none q rs)

  pub affected-zero : (q : A → Bool) (rs : List A) → exists q rs ≡ false → affected q rs ≡ 0
  affected-zero q [] h = refl
  affected-zero q (r ∷ rs) h = ground (arith, affected-zero q rs)

  -- A weaker test passes where a stronger one does.
  pub exists_mono :
      (q p : A → Bool) (rs : List A)
      → ((a : A) → q a ≡ true → p a ≡ true)
      → exists q rs ≡ true
      → exists p rs ≡ true
  exists_mono q p [] imp h = h
  exists_mono q p (r ∷ rs) imp h = ground (arith, imp r, exists_mono q p rs imp)

  -- An update that reaches every row that passes, and makes none pass, leaves none that passes.
  pub exists-update-clears :
      (q p : A → Bool) (f : A → A) (rs : List A)
      → ((a : A) → q a ≡ true → p a ≡ true)
      → ((a : A) → q (f a) ≡ false)
      → exists q (update p f rs) ≡ false
  exists-update-clears q p f [] hit clear = refl
  exists-update-clears q p f (r ∷ rs) hit clear =
      ground (arith, hit r, clear r, exists-update-clears q p f rs hit clear)

  pub exists-select-false :
      (q p : A → Bool) (rs : List A) → exists q rs ≡ false → exists q (select p rs) ≡ false
  exists-select-false q p [] h = refl
  exists-select-false q p (r ∷ rs) h = ground (arith, exists-select-false q p rs)

  pub affected-none : (q : A → Bool) (rs : List A) → affected q rs ≡ 0 → exists q rs ≡ false
  affected-none q [] h = refl
  affected-none q (r ∷ rs) h = ground (arith, affected-none q rs)

  -- A stronger test passes no row where a weaker one passes none.
  pub exists-weaker :
      (q p : A → Bool) (rs : List A)
      → ((a : A) → q a ≡ true → p a ≡ true)
      → exists p rs ≡ false
      → exists q rs ≡ false
  exists-weaker q p [] imp h = refl
  exists-weaker q p (r ∷ rs) imp h = ground (arith, imp r, exists-weaker q p rs imp)

  pub update-none :
      (q : A → Bool) (f : A → A) (rs : List A) → exists q rs ≡ false → update q f rs ≡ rs
  update-none q f [] h = refl
  update-none q f (r ∷ rs) h = ground (arith, update-none q f rs)

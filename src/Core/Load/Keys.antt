-- ===== src/Core/Load/Keys.antt =====
-- Where a table's progress is stored, and two tables that store it in one place.
use pg2osync.Base.{ℕ, ◌≡◌, Bool, Bool-cases, inl, inr, false, ◌∷◌, ◌++◌, map-append, append_assoc}
use pg2osync.Base.Text.{Text}
use pg2osync.Core.Load.{tame_char, tame, load_progress_key}

module _ (is_alphanumeric : ℕ → Bool) where
  tame_char-stop : is_alphanumeric 46 ≡ false → tame_char is_alphanumeric 46 ≡ 95
  unfolding tame_char
  tame_char-stop dot = rw dot

  tame_char-underscore : tame_char is_alphanumeric 95 ≡ 95
  unfolding tame_char
  tame_char-underscore = elim (Bool-cases (is_alphanumeric 95)) [
    | inl word ↦ rw word
    | inr other ↦ rw other
  ]

  tame-swap :
      is_alphanumeric 46 ≡ false
      → (a b c : Text)
      → tame is_alphanumeric (a ++ 46 ∷ (b ++ 95 ∷ c))
        ≡ tame is_alphanumeric ((a ++ 95 ∷ b) ++ 46 ∷ c)
  unfolding tame
  tame-swap dot a b c = simp (map-append, append_assoc, tame_char-stop dot, tame_char-underscore)

  -- Where a full stop is not alphanumeric: the progress of table `b_c` of schema `a` is stored
  -- under the same key as that of table `c` of schema `a_b`, whatever the stream.
  pub load_progress_key-collides :
      is_alphanumeric 46 ≡ false
      → (source stream a b c : Text)
      → load_progress_key is_alphanumeric source stream (a ++ 46 ∷ (b ++ 95 ∷ c))
        ≡ load_progress_key is_alphanumeric source stream ((a ++ 95 ∷ b) ++ 46 ∷ c)
  unfolding load_progress_key
  load_progress_key-collides dot source stream a b c = rw (tame-swap dot a b c)

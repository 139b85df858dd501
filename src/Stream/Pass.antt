-- ===== src/Stream/Pass.antt =====
-- The retention pass is a sequence of trims.
use kuttidb.Base.{
  ℕ, zero, suc, ◌<◌, List, [], arith, some_cases, if_cases, length, u64_mod, add64, ◌==◌,
}
use kuttidb.Stream.{StreamTopic, trim_part}
use kuttidb.Stream.Retention.{
  enforce, age_pass, age_part, age_loop, size_loop, victim, old_head, head_at, held_at, held_in,
}

pub add64_fits : (a b : ℕ) → add64 a b < u64_mod
add64_fits a b = ground arith

-- A property that every trim keeps is kept by the whole pass.
module _ {ℓ} (P : ℕ → StreamTopic → Type ℓ)
    (step : (live : ℕ) (t : StreamTopic) (p b : ℕ)
      → b < u64_mod
      → P live t
      → P (trim_part live t p b).0 (trim_part live t p b).1) where
  pub age_loop_keeps :
      (fuel now p live : ℕ) (t : StreamTopic) (b : ℕ)
      → P live t
      → P (age_loop fuel now p live t b).0 (age_loop fuel now p live t b).1
  unfolding age_loop
  age_loop_keeps zero now p live t b c = c
  age_loop_keeps (suc fuel) now p live t b c =
      some_cases (λ (r : ℕ × StreamTopic × ℕ). P r.0 r.1) (old_head now t.max_age_ms (head_at p t))
        _ _ (λ _. c)
        (λ r _.
          age_loop_keeps fuel now p _ _ (add64 r.offset 1)
            (step live t p (add64 r.offset 1) (add64_fits r.offset 1) c))

  pub age_part_keeps :
      (now p live : ℕ) (t : StreamTopic) (touched : List (ℕ × ℕ))
      → P live t
      → P (age_part now p live t touched).0 (age_part now p live t touched).1
  unfolding age_part
  age_part_keeps now p live t touched c =
      if_cases (λ (r : ℕ × StreamTopic × List (ℕ × ℕ)). P r.0 r.1) (t.max_age_ms == 0) _ _ (λ _. c)
        (λ _. age_loop_keeps (held_at p t) now p live t 0 c)

  pub age_pass_keeps :
      (n now p live : ℕ) (t : StreamTopic) (touched : List (ℕ × ℕ))
      → P live t
      → P (age_pass n now p live t touched).0 (age_pass n now p live t touched).1
  unfolding age_pass
  age_pass_keeps zero now p live t touched c = c
  age_pass_keeps (suc n) now p live t touched c =
      age_pass_keeps n now (suc p) _ _ _ (age_part_keeps now p live t touched c)

  pub size_loop_keeps :
      (fuel live : ℕ) (t : StreamTopic) (touched : List (ℕ × ℕ))
      → P live t
      → P (size_loop fuel live t touched).0 (size_loop fuel live t touched).1
  unfolding size_loop
  size_loop_keeps zero live t touched c = c
  size_loop_keeps (suc fuel) live t touched c =
      some_cases (λ (r : ℕ × StreamTopic × List (ℕ × ℕ)). P r.0 r.1) (victim t) _ _ (λ _. c)
        (λ v _.
          size_loop_keeps fuel _ _ _
            (step live t v.0 (add64 v.1.offset 1) (add64_fits v.1.offset 1) c))

  pub enforce_keeps :
      (now live : ℕ) (t : StreamTopic) → P live t → P (enforce now live t).0 (enforce now live t).1
  unfolding enforce
  enforce_keeps now live t c =
      let aged = age_pass (length t.parts) now 0 live t [] in
      size_loop_keeps (held_in aged.1) aged.0 aged.1 aged.2
        (age_pass_keeps (length t.parts) now 0 live t [] c)

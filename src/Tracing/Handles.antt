-- ===== src/Tracing/Handles.antt =====
-- The handles of the Slack posts: none is lost before its task has ended.
use sp1_helios.Prelude.{
  ℕ, ◌≡◌, ◌⊎◌, refl, ap, List, [], ◌∷◌, ◌++◌, Bool, true, false, All, Any, arith, Bool-cases, inl,
  inr, leb, length,
}
use sp1_helios.Tracing.Slack.{slack_prune_threshold, retain, keep_handle, Post, handles, flush}

abbrev pub Has : ℕ → List ℕ → Type 0
Has h = Any (λ x. x ≡ h)

Has-append : (h : ℕ) (v w : List ℕ) → (Has h v ⊎ Has h w) → Has h (v ++ w)
Has-append h [] w (inl x) = absurd x
Has-append h [] w (inr x) = x
Has-append h (y ∷ v) w (inl (inl e)) = inl e
Has-append h (y ∷ v) w (inl (inr x)) = inr (Has-append h v w (inl x))
Has-append h (y ∷ v) w (inr x) = inr (Has-append h v w (inr x))

Has-retain :
    (finished : ℕ → Bool) (h : ℕ) (v : List ℕ)
    → finished h ≡ false
    → Has h v
    → Has h (retain finished v)
unfolding retain
Has-retain finished h [] u x = absurd x
Has-retain finished h (y ∷ v) u x = elim (Bool-cases (finished y)) [
  | inl gone ↦ rw gone (elim x [
    | inl e ↦ absurd (ground (arith, ap finished e))
    | inr later ↦ Has-retain finished h v u later
  ])
  | inr stays ↦
      rw stays (elim x [ inl e ↦ inl e | inr later ↦ inr (Has-retain finished h v u later) ])
]

Has-keep_handle :
    (finished : ℕ → Bool) (h new : ℕ) (v : List ℕ)
    → finished h ≡ false
    → (Has h v ⊎ (new ≡ h))
    → Has h (keep_handle true finished v new)
unfolding keep_handle
Has-keep_handle finished h new v u x =
    let grown : Has h (v ++ new ∷ []) = elim x [
      | inl old ↦ Has-append h v (new ∷ []) (inl old)
      | inr e ↦ Has-append h v (new ∷ []) (inr (inl e))
    ] in
    elim (Bool-cases (leb slack_prune_threshold (length (v ++ new ∷ [])))) [
      | inl full ↦ rw full (Has-retain finished h (v ++ new ∷ []) u grown)
      | inr short ↦ rw short grown
    ]

-- The lock was taken, and what had ended by then has ended at the end.
pub record InOrder (finished : ℕ → Bool) (post : Post) : Type 0 where
  pub locked : post.locked ≡ true
  pub ended : (h : ℕ) → post.finished h ≡ true → finished h ≡ true

handles-Has :
    (finished : ℕ → Bool) (h : ℕ) (v : List ℕ) (posts : List Post)
    → All (InOrder finished) posts
    → finished h ≡ false
    → (Has h v ⊎ Any (λ post. post.handle ≡ h) posts)
    → Has h (handles v posts)
unfolding handles
handles-Has finished h v [] o u (inl x) = x
handles-Has finished h v [] o u (inr x) = absurd x
handles-Has finished h v (post ∷ posts) o u x =
    let running : post.finished h ≡ false = still (post.finished h) refl in
    rw o.0.locked (elim x [
      | inl old ↦
          handles-Has finished h (keep_handle true post.finished v post.handle) posts o.1 u
            (inl (Has-keep_handle post.finished h post.handle v running (inl old)))
      | inr (inl e) ↦
          handles-Has finished h (keep_handle true post.finished v post.handle) posts o.1 u
            (inl (Has-keep_handle post.finished h post.handle v running (inr e)))
      | inr (inr later) ↦
          handles-Has finished h (keep_handle true post.finished v post.handle) posts o.1 u
            (inr later)
    ])
  where
    still : (b : Bool) → post.finished h ≡ b → b ≡ false
    still false e = refl
    still true e = absurd (ground (arith, o.0.ended h e))

-- Where every lock is taken and a task that has ended stays ended: after any posts, `flush` waits
-- for every posted task that has not ended, whatever was pruned meanwhile.
pub flush-Has :
    (finished : ℕ → Bool) (posts : List Post) (h : ℕ)
    → All (InOrder finished) posts
    → finished h ≡ false
    → Any (λ post. post.handle ≡ h) posts
    → Has h (flush true (handles [] posts))
unfolding flush
flush-Has finished posts h o u x = handles-Has finished h [] posts o u (inr x)

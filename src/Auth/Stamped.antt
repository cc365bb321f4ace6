-- ===== src/Auth/Stamped.antt =====
-- The users after a token was issued to one of them.
use Prim.Native.String.{String}
use persistent_memory_stack.Prelude.Text.{Text, text_eq_refl}
use persistent_memory_stack.Prelude.{
  All, Bool, Bool-cases, List, Option, [], any, false, find?, if◌then◌else◌, inl, inr, map, on_if,
  refl, some, true, ℕ, ◌∷◌, ◌≡◌,
}
use persistent_memory_stack.Auth.{AppUser, is_taken, is_user, same_handle, stamp}

pub find?-All :
    (P : AppUser → Type 0) (test : AppUser → Bool) (us : List AppUser) (u : AppUser)
    → All P us
    → find? test us ≡ some u
    → P u × (test u ≡ true)
find?-All P test [] u h e = absurd (cc)
find?-All P test (x ∷ us) u (p, h) e = elim (Bool-cases (test x)) [
  | inl t ↦
      let same : some x ≡ some u = (rw t at e) in
      let x_is : x ≡ u = cc same in (rw x_is at p, rw x_is at t)
  | inr t ↦ find?-All P test us u h (rw t at e)
]

-- What is true of each user after a token was issued to one.
pub record IsStamped (user_id : String) (token_id stored : Text) (expires : Option ℕ) (u : AppUser)
    : Type 0 where
  pub given :
      is_user user_id u ≡ true
      → (u.token_id ≡ some token_id) × (u.token_hash ≡ some stored) × (u.token_expires ≡ expires)
  pub alone : same_handle token_id u.token_id ≡ true → is_user user_id u ≡ true

module _ (user_id : String) (token_id stored : Text) (expires : Option ℕ) where
  abbrev pub change : AppUser → AppUser
  change u = if is_user user_id u then stamp token_id stored expires u else u

  change-IsStamped :
      (u : AppUser)
      → is_taken user_id token_id u ≡ false
      → IsStamped user_id token_id stored expires (change u)
  change-IsStamped u free =
      on_if_known (λ e. record { given = λ _. (refl, refl, refl); alone = λ _. e })
        (λ e. record {
          given = λ h. absurd (cc (e, h));
          alone = λ h. absurd (cc (rw (e, h) at free));
        })
    where
      on_if_known :
          (is_user user_id u ≡ true
            → IsStamped user_id token_id stored expires (stamp token_id stored expires u))
          → (is_user user_id u ≡ false → IsStamped user_id token_id stored expires u)
          → IsStamped user_id token_id stored expires (change u)
      on_if_known =
          on_if (IsStamped user_id token_id stored expires) (is_user user_id u)
            (stamp token_id stored expires u) u

  pub map-IsStamped :
      (users : List AppUser)
      → any (is_taken user_id token_id) users ≡ false
      → All (IsStamped user_id token_id stored expires) (map change users)
  map-IsStamped [] h = tt
  map-IsStamped (u ∷ users) h = elim (Bool-cases (is_taken user_id token_id u)) [
    | inl e ↦ absurd (cc (rw e at h))
    | inr e ↦ (change-IsStamped u e, map-IsStamped users (rw e at h))
  ]

  -- The user is there, and so a user with the handle is found.
  pub found :
      (users : List AppUser)
      → any (is_user user_id) users ≡ true
      → (u : AppUser) × (find? (λ v. same_handle token_id (AppUser.token_id v)) (map change users)
          ≡ some u)
  found [] h = absurd (cc)
  found (u ∷ users) h = elim (Bool-cases (same_handle token_id (change u).token_id)) [
    | inl e ↦ (change u, rw e refl)
    | inr e ↦ elim (Bool-cases (is_user user_id u)) [
      | inl k ↦ absurd (not_handle k e)
      | inr k ↦ let (v, f) = found users (rw k at h) in (v, rw e f)
    ]
  ]
    where
      not_handle : is_user user_id u ≡ true → same_handle token_id (change u).token_id ≡ false → ⊥
      not_handle k e = cc (text_eq_refl token_id, rw k at e)

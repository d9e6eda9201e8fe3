-- ===== src/K6Output/Params/Bounds.antt =====
-- The bounds of the queue size that parseOutArgs of k6output/params.go returns.
use xk6_otel_gen.Prelude.{
  ◌≡◌, refl, subst, String, false, ◌||◌, Option, none, some, List, [], ◌∷◌, str_eq, Bool-cases, inl,
  inr, arith,
}
use xk6_otel_gen.Prelude.Int.{ℤ, pos, negsuc, ltb_ℤ, ◌≤ℤ◌}
use xk6_otel_gen.Prelude.Atoi.{atoi}
use xk6_otel_gen.Prelude.Text.{split, trim_space, cut}
use xk6_otel_gen.Topology.Types.{Duration}
use xk6_otel_gen.Exporter.Config.Check.{Outside}
use xk6_otel_gen.K6Output.Params.{
  Params, ConfigErrorKind, on_key, Applied, default_params, set_read, set_queue_size, apply_kv,
  apply_pair, apply_token, apply_tokens, parse_out_args,
}

-- minQueueSize and maxQueueSize
pub record IsBounded (p : Params) : Type 0 where
  pub at_least : pos 10 ≤ℤ p.queue_size
  pub at_most : p.queue_size ≤ℤ pos 10_000

-- Bounds speak of the queue size only.
same_size-IsBounded : (p q : Params) → IsBounded p → p.queue_size ≡ q.queue_size → IsBounded q
same_size-IsBounded p q h same = record {
  at_least = subst (λ n. pos 10 ≤ℤ n) same h.at_least;
  at_most = subst (λ n. n ≤ℤ pos 10_000) same h.at_most;
}

abbrev BoundedIn : Applied → Type 0
BoundedIn (Applied.ok p) = IsBounded p
BoundedIn (Applied.failed kind field) = Unit

-- The parameters, if there is no error, are bounded.
record AreBounded (r : Applied) : Type 0 where
  bounds : BoundedIn r

on_key-AreBounded :
    (key name : String) (a b : Applied)
    → AreBounded a
    → AreBounded b
    → AreBounded (on_key key name a b)
unfolding on_key
on_key-AreBounded key name a b ha hb = elim (Bool-cases (str_eq key name)) [
  | inl here ↦ rw here ha
  | inr elsewhere ↦ rw elsewhere hb
]

-- A setter that leaves the queue size.
set_read-AreBounded {ℓ} :
    {A : Type ℓ} (key : String) (kind : ConfigErrorKind) (set : A → Params) (o : Option A)
    → ((a : A) → IsBounded (set a))
    → AreBounded (set_read key kind set o)
unfolding set_read
set_read-AreBounded key kind set none h = record { bounds = tt }
set_read-AreBounded key kind set (some a) h = record {
  bounds = record { at_least = (h a).at_least; at_most = (h a).at_most };
}

in_range-bounds :
    (n : ℤ) → (ltb_ℤ n (pos 10) || ltb_ℤ (pos 10_000) n) ≡ false → (pos 10 ≤ℤ n) × (n ≤ℤ pos 10_000)
in_range-bounds (pos n) h = (ground (arith, h), ground (arith, h))
in_range-bounds (negsuc n) h = (ground (arith, h), ground (arith, h))

set_queue_size-AreBounded :
    (key : String) (n : Option ℤ) (p : Params) → AreBounded (set_queue_size key n p)
unfolding set_queue_size set_read
set_queue_size-AreBounded key none p = record { bounds = tt }
set_queue_size-AreBounded key (some n) p =
    elim (Bool-cases (ltb_ℤ n (pos 10) || ltb_ℤ (pos 10_000) n)) [
      | inl outside ↦ rw outside (record { bounds = tt })
      | inr inside ↦
          let (low, high) = in_range-bounds n inside in
          rw inside (record { bounds = record { at_least = low; at_most = high } })
    ]

module _ (w : Outside) (parse_duration : String → Option Duration) where
  apply_kv-AreBounded :
      (p : Params) (key val : String)
      → IsBounded p
      → AreBounded (apply_kv w parse_duration p key val)
  unfolding apply_kv
  apply_kv-AreBounded p key val h =
      on_key-AreBounded _ _ _ _ (set_read-AreBounded _ _ _ _ (λ _. same_size-IsBounded p _ h refl))
        (on_key-AreBounded _ _ _ _
          (set_read-AreBounded _ _ _ _ (λ _. same_size-IsBounded p _ h refl))
          (on_key-AreBounded _ _ _ _
            (set_read-AreBounded _ _ _ _ (λ _. same_size-IsBounded p _ h refl))
            (on_key-AreBounded _ _ _ _
              (set_read-AreBounded _ _ _ _ (λ _. same_size-IsBounded p _ h refl))
              (on_key-AreBounded _ _ _ _
                (set_read-AreBounded _ _ _ _ (λ _. same_size-IsBounded p _ h refl))
                (on_key-AreBounded _ _ _ _
                  (set_read-AreBounded _ _ _ _ (λ _. same_size-IsBounded p _ h refl))
                  (on_key-AreBounded _ _ _ _
                    (set_read-AreBounded _ _ _ _ (λ _. same_size-IsBounded p _ h refl))
                    (on_key-AreBounded _ _ _ _
                      (set_read-AreBounded _ _ _ _ (λ _. same_size-IsBounded p _ h refl))
                      (on_key-AreBounded _ _ _ _
                        (set_read-AreBounded _ _ _ _ (λ _. same_size-IsBounded p _ h refl))
                        (on_key-AreBounded _ _ _ _
                          (set_read-AreBounded _ _ _ _ (λ _. same_size-IsBounded p _ h refl))
                          (on_key-AreBounded _ _ _ _
                            (set_read-AreBounded _ _ _ _ (λ _. same_size-IsBounded p _ h refl))
                            (on_key-AreBounded _ _ _ _
                              (set_read-AreBounded _ _ _ _ (λ _. same_size-IsBounded p _ h refl))
                              (on_key-AreBounded _ _ _ _
                                (set_read-AreBounded _ _ _ _ (λ _. same_size-IsBounded p _ h refl))
                                (on_key-AreBounded _ _ _ _
                                  (set_queue_size-AreBounded key (atoi val) p)
                                  (record { bounds = h }))))))))))))))

  pair-AreBounded :
      (p : Params) (token : String) (pair : Option (String × String))
      → IsBounded p
      → AreBounded (apply_pair w parse_duration p token pair)
  unfolding apply_pair
  pair-AreBounded p token none h = record { bounds = tt }
  pair-AreBounded p token (some (key, val)) h =
      apply_kv-AreBounded p (trim_space key) (trim_space val) h

  token-AreBounded :
      (p : Params) (token : String)
      → IsBounded p
      → AreBounded (apply_token w parse_duration p token)
  unfolding apply_token
  token-AreBounded p token h = elim (Bool-cases (str_eq (trim_space token) "")) [
    | inl blank ↦ rw blank (record { bounds = h })
    | inr full ↦ rw full (pair-AreBounded p (trim_space token) (cut "=" (trim_space token)) h)
  ]

  tokens-IsBounded :
      (tokens : List String) (p : Params) (r : Applied)
      → IsBounded p
      → AreBounded r
      → IsBounded (apply_tokens w parse_duration tokens p r).0
  unfolding apply_tokens
  tokens-IsBounded [] p (Applied.failed kind field) h bound = h
  tokens-IsBounded (token ∷ tokens) p (Applied.failed kind field) h bound = h
  tokens-IsBounded [] p (Applied.ok p') h bound = bound.bounds
  tokens-IsBounded (token ∷ tokens) p (Applied.ok p') h bound =
      tokens-IsBounded tokens p' (apply_token w parse_duration p' token) bound.bounds
        (token-AreBounded p' token bound.bounds)

  -- Whatever the argument is, and whether or not it has an error, the queue size of the parameters
  -- that parseOutArgs returns is at least 10 and at most 10000.
  pub parse_out_args-IsBounded : (s : String) → IsBounded (parse_out_args w parse_duration s).0
  unfolding parse_out_args
  parse_out_args-IsBounded s = elim (Bool-cases (str_eq (trim_space s) "")) [
    | inl blank ↦ rw blank default_bounded
    | inr full ↦ rw full (
        tokens-IsBounded (split "," s) default_params (Applied.ok default_params) default_bounded
          (record { bounds = default_bounded }))
  ]
    where
      default_bounded : IsBounded default_params
      default_bounded = record { at_least = omega arith; at_most = omega arith }

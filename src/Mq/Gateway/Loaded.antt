-- ===== src/Mq/Gateway/Loaded.antt =====
-- What a gateway that was loaded satisfies.
use mathlib.Core.Bool.{false≢true}
use agent_comm_platform.Base.{
  ℕ, ◌≡◌, refl, sym, ap, ◌∙◌, Bool, true, false, not, ◌&&◌, Option, none, some, [], if◌then◌else◌,
}
use agent_comm_platform.Base.Bytes.{Bytes, ◌==◌, is_empty, eq→≡}
use agent_comm_platform.Base.Action.{ok, and_then, and_then_ok, try, try_ok, ok_injective}
use agent_comm_platform.Mq.Gateway.{V2Gateway}
use agent_comm_platform.Mq.Gateway.Loading.{
  LoadSdk, LoadError, given, refuse_if, read_v2_key, with_gateway_key, with_receipt_key, with_root,
  with_policy, load_v2_gateway, no_policy, bad_policy, no_root, no_receipt_key, wrong_receipt_key,
  no_gateway_file, no_gateway_key, bad_gateway_key, wrong_gateway_key,
}

-- A policy that the root has signed for this platform, and the private keys of its public ones; in
-- compliance mode no v1 delivery.
abbrev pub IsLoaded : {Policy : Type 0} → LoadSdk Policy → Bytes → ℕ → V2Gateway Policy → Type 0
IsLoaded sdk id now g =
    (sdk.verify_policy g.policy g.root now ≡ true)
    × (sdk.platform_id g.policy ≡ id)
    × (sdk.is_compliance g.policy && sdk.allow_v1 g.policy ≡ false)
    × (sdk.ed25519_public g.receipt_private ≡ sdk.receipt_public_key g.policy)
    × (sdk.is_compliance g.policy ≡ true
        → sdk.x25519_public g.gateway_private ≡ some (sdk.gateway_public_key g.policy))

not_refused : (b : Bool) (e : LoadError) → refuse_if b e ≡ ok tt → b ≡ false
not_refused true e h = cc
not_refused false e h = refl

given-some : {A : Type 0} (e : LoadError) (o : Option A) (a : A) → given e o ≡ ok a → o ≡ some a
given-some e none a h = cc
given-some e (some x) a h = ap some (ok_injective h)

not-false : (b : Bool) → not b ≡ false → b ≡ true
not-false true h = refl
not-false false h = cc

module _ {Policy : Type 0} (sdk : LoadSdk Policy) (gateway_file : Bytes) where
  with_gateway_key_ok :
      (g final : V2Gateway Policy)
      → with_gateway_key sdk gateway_file g ≡ ok final
      → (key : Bytes) × (record g { gateway_private = key } ≡ final)
        × (sdk.x25519_public key ≡ some (sdk.gateway_public_key g.policy))
  unfolding with_gateway_key
  with_gateway_key_ok g final h =
      let a = and_then_ok (refuse_if (is_empty gateway_file) no_gateway_file) _ final h in
      let b =
        try_ok (given no_gateway_key (read_v2_key sdk gateway_file 32))
          (λ key. try (given bad_gateway_key (sdk.x25519_public key)) (λ public.
            and_then (refuse_if (not (public == sdk.gateway_public_key g.policy)) wrong_gateway_key)
              (ok record g { gateway_private = key })))
          final a.1 in
      let c =
        try_ok (given bad_gateway_key (sdk.x25519_public b.0))
          (λ public.
            and_then (refuse_if (not (public == sdk.gateway_public_key g.policy)) wrong_gateway_key)
              (ok record g { gateway_private = b.0 }))
          final b.2 in
      let d =
        and_then_ok (refuse_if (not (c.0 == sdk.gateway_public_key g.policy)) wrong_gateway_key)
          (ok record g { gateway_private = b.0 }) final c.2 in
      (
        b.0,
        ok_injective d.1,
        given-some bad_gateway_key (sdk.x25519_public b.0) c.0 c.1
            ∙ ap some (
                eq→≡ c.0 (sdk.gateway_public_key g.policy)
                  (not-false _ (not_refused _ wrong_gateway_key d.0))),
      )

  compliance_ok :
      (g final : V2Gateway Policy) (b : Bool)
      → (if b then with_gateway_key sdk gateway_file g else ok g) ≡ ok final
      → (final.policy ≡ g.policy)
        × (final.root ≡ g.root)
        × (final.receipt_private ≡ g.receipt_private)
        × (b ≡ true
            → sdk.x25519_public final.gateway_private ≡ some (sdk.gateway_public_key g.policy))
  compliance_ok g final true h =
      let a = with_gateway_key_ok g final h in
      (
        ap (λ x. x.policy) (sym a.1),
        ap (λ x. x.root) (sym a.1),
        ap (λ x. x.receipt_private) (sym a.1),
        λ t. ap (λ x. sdk.x25519_public x.gateway_private) (sym a.1) ∙ a.2,
      )
  compliance_ok g final false h =
      let same = ok_injective (sym h) in
      (
        ap (λ x. x.policy) same,
        ap (λ x. x.root) same,
        ap (λ x. x.receipt_private) same,
        λ t. absurd (false≢true t),
      )

  with_receipt_key_ok :
      (raw : Bytes) (policy : Policy) (root key : Bytes) (final : V2Gateway Policy)
      → with_receipt_key sdk gateway_file raw policy root key ≡ ok final
      → (final.policy ≡ policy)
        × (final.root ≡ root)
        × (sdk.ed25519_public final.receipt_private ≡ sdk.receipt_public_key policy)
        × (sdk.is_compliance policy ≡ true
            → sdk.x25519_public final.gateway_private ≡ some (sdk.gateway_public_key policy))
  unfolding with_receipt_key
  with_receipt_key_ok raw policy root key final h =
      let g : V2Gateway Policy = record {
        policy = policy;
        raw_policy = raw;
        root = root;
        gateway_private = [];
        receipt_private = key;
      } in
      let a =
        and_then_ok
          (refuse_if (not (sdk.ed25519_public key == sdk.receipt_public_key policy))
            wrong_receipt_key)
          (if sdk.is_compliance policy then with_gateway_key sdk gateway_file g else ok g) final
          h in
      let b = compliance_ok g final (sdk.is_compliance policy) a.1 in
      (
        b.0,
        b.1,
        ap sdk.ed25519_public b.2 ∙ eq→≡ _ _ (not-false _ (not_refused _ wrong_receipt_key a.0)),
        b.3,
      )

  with_root_ok :
      (receipt_file id : Bytes) (now : ℕ) (raw : Bytes) (policy : Policy) (root : Bytes)
      (final : V2Gateway Policy)
      → with_root sdk gateway_file receipt_file id now raw policy root ≡ ok final
      → IsLoaded sdk id now final
  unfolding with_root
  with_root_ok receipt_file id now raw policy root final h =
      let a = and_then_ok _ _ final h in
      let b = and_then_ok _ _ final a.1 in
      let c = and_then_ok _ _ final b.1 in
      let d =
        try_ok (given no_receipt_key (read_v2_key sdk receipt_file 64))
          (with_receipt_key sdk gateway_file raw policy root) final c.1 in
      let e = with_receipt_key_ok raw policy root d.0 final d.2 in
      (
        ap (λ p. sdk.verify_policy p final.root now) e.0
            ∙ ap (λ r. sdk.verify_policy policy r now) e.1
            ∙ not-false _ (not_refused _ _ a.0),
        ap sdk.platform_id e.0 ∙ eq→≡ _ _ (not-false _ (not_refused _ _ b.0)),
        ap (λ p. sdk.is_compliance p && sdk.allow_v1 p) e.0 ∙ not_refused _ _ c.0,
        e.2 ∙ ap sdk.receipt_public_key (sym e.0),
        λ t.
            e.3 (ap sdk.is_compliance (sym e.0) ∙ t)
            ∙ ap (λ p. some (sdk.gateway_public_key p)) (sym e.0),
      )

  -- A gateway that loads has a policy which its root has signed for this platform, without v1
  -- delivery in compliance mode, and the private key of the receipts and, in compliance mode, of
  -- the gateway that belong to the public keys of the policy.
  pub load_v2_gateway_ok :
      (policy_file root_file receipt_file id : Bytes) (now : ℕ) (g : V2Gateway Policy)
      → load_v2_gateway sdk policy_file root_file gateway_file receipt_file id now ≡ ok g
      → IsLoaded sdk id now g
  unfolding load_v2_gateway with_policy
  load_v2_gateway_ok policy_file root_file receipt_file id now g h =
      let a =
        try_ok (given no_policy (sdk.read_file policy_file))
          (λ raw.
            try (given bad_policy (sdk.parse_policy raw))
              (with_policy sdk root_file gateway_file receipt_file id now raw))
          g h in
      let b =
        try_ok (given bad_policy (sdk.parse_policy a.0))
          (with_policy sdk root_file gateway_file receipt_file id now a.0) g a.2 in
      let c =
        try_ok (given no_root (read_v2_key sdk root_file 32))
          (with_root sdk gateway_file receipt_file id now a.0 b.0) g b.2 in
      with_root_ok receipt_file id now a.0 b.0 c.0 g c.2

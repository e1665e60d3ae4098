-- ===== src/Containment/Keeps.antt =====
-- internal/containment/containment.go: what a control keeps while time passes and calls are made.
use sentinel_api.Base.{
  ℕ, String, none, some, [], ◌∷◌, ◌≡◌, refl, ◌≢◌, ◌∙◌, inl, inr, arith, subst, str_eq, str_eq_iff,
  Bool-cases, lookup, insert, lookup-insert,
}
use sentinel_api.Containment.{active, revoked, Containment, Items, is_for, resolve, resolve_all}

-- What a later state of a control keeps.
pub record Follows (c d : Containment) : Type 0 where
  pub same_id : d.id ≡ c.id
  pub same_type : d.type ≡ c.type
  pub same_target : d.target_ip ≡ c.target_ip
  pub same_start : d.deployed_at ≡ c.deployed_at
  pub same_end : d.expires_at ≡ c.expires_at
  pub final : c.status ≢ active → d ≡ c

pub Follows-refl : (c : Containment) → Follows c c
Follows-refl c = record {
  same_id = refl;
  same_type = refl;
  same_target = refl;
  same_start = refl;
  same_end = refl;
  final = λ h. refl;
}

pub Follows-trans : {c d e : Containment} → Follows c d → Follows d e → Follows c e
Follows-trans {c} {d} p q = record {
  same_id = q.same_id ∙ p.same_id;
  same_type = q.same_type ∙ p.same_type;
  same_target = q.same_target ∙ p.same_target;
  same_start = q.same_start ∙ p.same_start;
  same_end = q.same_end ∙ p.same_end;
  final = λ h. let e = p.final h in q.final (λ g. h (subst (λ x. x.status ≡ active) e g)) ∙ e;
}

pub resolve-Follows : (now : ℕ) (c : Containment) → Follows c (resolve now c)
unfolding resolve
resolve-Follows now c = ground arith

pub revoked-Follows :
    (now : ℕ) (c : Containment)
    → c.status ≡ active
    → Follows c (record c { status = revoked; revoked_at = some now })
revoked-Follows now c a = record {
  same_id = refl;
  same_type = refl;
  same_target = refl;
  same_start = refl;
  same_end = refl;
  final = λ h. absurd (h a);
}

-- Every control of the one map is in the other, in a state that follows.
unfoldable pub Keeps : Items → Items → Type 0
Keeps items items' =
    (i : String) (c : Containment)
    → lookup i items ≡ some c
    → (d : Containment) × (lookup i items' ≡ some d) × Follows c d

pub Keeps-refl : (items : Items) → Keeps items items
unfolding Keeps
Keeps-refl items i c h = (c, h, Follows-refl c)

pub insert-Keeps :
    (i : String) (c d : Containment) (items : Items)
    → lookup i items ≡ some c
    → Follows c d
    → Keeps items (insert i d items)
unfolding Keeps
insert-Keeps i c d items e f j x h = elim (Bool-cases (str_eq i j)) [
  | inl p ↦ (d, rw (lookup-insert, p), subst (λ y. Follows y d) (cc (e, h, (str_eq_iff i j).0 p)) f)
  | inr p ↦ (x, rw (lookup-insert, p) h, Follows-refl x)
]

pub fresh-Keeps :
    (i : String) (d : Containment) (items : Items)
    → lookup i items ≡ none
    → Keeps items (insert i d items)
unfolding Keeps
fresh-Keeps i d items e j x h = elim (Bool-cases (str_eq i j)) [
  | inl p ↦ cc (e, h, (str_eq_iff i j).0 p)
  | inr p ↦ (x, rw (lookup-insert, p) h, Follows-refl x)
]

pub resolve_all-Keeps :
    (now : ℕ) (target : String) (items : Items) → Keeps items (resolve_all now target items)
unfolding Keeps resolve_all lookup
resolve_all-Keeps now target [] j x h = cc
resolve_all-Keeps now target ((k, c) ∷ items) j x h = elim (Bool-cases (str_eq k j)) [
  | inr p ↦ rw p (resolve_all-Keeps now target items j x (rw p at h))
  | inl p ↦
      let same : c ≡ x = cc (rw p at h) in
      elim (Bool-cases (is_for target c)) [
        | inl q ↦ (
          resolve now c,
          rw (p, q),
          subst (λ y. Follows y (resolve now c)) same (resolve-Follows now c),
        )
        | inr q ↦ (c, rw (p, q), subst (λ y. Follows y c) same (Follows-refl c))
      ]
]

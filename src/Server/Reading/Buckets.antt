-- ===== src/Server/Reading/Buckets.antt =====
-- internal/server/handlers.go: what the buckets of `Metrics` count.
use sentinel_api.Base.{
  ℕ, zero, suc, ◌+◌, ◌-◌, ◌*◌, ◌^◌, ◌≤◌, ◌<◌, leb, negsuc, is_blank, str_eq, String, Bool, true,
  false, ◌&&◌, ◌||◌, Option, none, some, List, [], ◌∷◌, ◌≡◌, refl, ap, ◌∙◌, arith, inl, inr, pos,
  ltb, ◌==◌, get_elem?, count_if, Bool-cases, Option-cases, if◌then◌else◌,
}
use sentinel_api.Event.{NormalizedEvent, has_tag}
use sentinel_api.Event.Tag
use sentinel_api.Server.Reading.{
  bucket_index, Bucket, empty_bucket, is_error, is_forbidden, count_request, change_at,
  change_found, repeat, of_asset, count_requests, metrics,
}

change_at-get {ℓ} :
    {A : Type ℓ} (f : A → A) (k j : ℕ) (bs : List A) (b : A)
    → get_elem? bs j ≡ some b
    → get_elem? (change_at f k bs) j ≡ some (if k == j then f b else b)
unfolding change_at
change_at-get f k j [] b h = cc
change_at-get f zero zero (x ∷ bs) b h = ap (λ o. elim o [ none ↦ none | some y ↦ some (f y) ]) h
change_at-get f zero (suc j) (x ∷ bs) b h =
    let ne : (zero == suc j) ≡ false = ground arith in rw ne h
change_at-get f (suc k) zero (x ∷ bs) b h =
    let ne : (suc k == zero) ≡ false = ground arith in rw ne h
change_at-get f (suc k) (suc j) (x ∷ bs) b h =
    let same : (suc k == suc j) ≡ (k == j) = ground arith in rw same (change_at-get f k j bs b h)

abbrev is_at : ℕ → Option ℕ → Bool
is_at j none = false
is_at j (some k) = k == j

-- The event is of the asset, or none is asked for, and falls into a bucket.
abbrev falls_into : String → ℕ → ℕ → ℕ → NormalizedEvent → Bool
falls_into asset window now j e = of_asset asset e && is_at j (bucket_index window now e.timestamp)

abbrev is_blocked : NormalizedEvent → Bool
is_blocked e = has_tag e Tag.waf_block || is_forbidden e.status

plus_if : (b : Bool) (m n : ℕ) → (if b then m + 1 else m) + n ≡ m + (if b then suc n else n)
plus_if true m n = omega arith
plus_if false m n = refl

-- One bucket by itself.
tally : String → ℕ → ℕ → ℕ → List NormalizedEvent → Bucket → Bucket
tally asset window now j [] b = b
tally asset window now j (e ∷ es) b =
    tally asset window now j es (if falls_into asset window now j e then count_request e b else b)

module _ (asset : String) (window now : ℕ) where
  changed :
      (e : NormalizedEvent) (j : ℕ) (bs : List Bucket) (b : Bucket)
      → get_elem? bs j ≡ some b
      → get_elem?
          (if of_asset asset e
            then change_found (count_request e) (bucket_index window now e.timestamp) bs
            else bs)
          j
        ≡ some (if falls_into asset window now j e then count_request e b else b)
  unfolding change_found
  changed e j bs b h = elim (Bool-cases (of_asset asset e)) [
    | inr n ↦ rw n h
    | inl y ↦ elim (Option-cases (bucket_index window now e.timestamp)) [
      | inl o ↦ rw (y, o) h
      | inr (k, o) ↦ rw (y, o) (change_at-get (count_request e) k j bs b h)
    ]
  ]

  count_requests-tally :
      (es : List NormalizedEvent) (j : ℕ) (bs : List Bucket) (b : Bucket)
      → get_elem? bs j ≡ some b
      → get_elem? (count_requests asset window now es bs) j ≡ some (tally asset window now j es b)
  unfolding count_requests tally
  count_requests-tally [] j bs b h = h
  count_requests-tally (e ∷ es) j bs b h =
      count_requests-tally es j
        (if of_asset asset e
          then change_found (count_request e) (bucket_index window now e.timestamp) bs
          else bs)
        (if falls_into asset window now j e then count_request e b else b) (changed e j bs b h)

  tally-counts :
      (es : List NormalizedEvent) (j : ℕ) (b : Bucket)
      → ((tally asset window now j es b).requests
          ≡ b.requests + count_if (falls_into asset window now j) es)
        × ((tally asset window now j es b).errors
            ≡ b.errors + count_if (λ e. falls_into asset window now j e && is_error e.status) es)
        × ((tally asset window now j es b).blocked
            ≡ b.blocked + count_if (λ e. falls_into asset window now j e && is_blocked e) es)
  unfolding tally count_request
  tally-counts [] j b = (omega arith, omega arith, omega arith)
  tally-counts (e ∷ es) j b =
      let more = tally-counts es j (count_request e b) in
      let same = tally-counts es j b in
      elim (Bool-cases (falls_into asset window now j e)) [
        | inl y ↦
            rw (tally, y)
              (
                omega (arith, more.0),
                more.1 ∙ plus_if (is_error e.status) _ _,
                more.2 ∙ plus_if (is_blocked e) _ _,
              )
        | inr n ↦ rw (tally, n) same
      ]

repeat-get {ℓ} : {A : Type ℓ} (n j : ℕ) (x : A) → j < n → get_elem? (repeat n x) j ≡ some x
repeat-get zero j x h = absurd (omega arith)
repeat-get (suc n) zero x h = refl
repeat-get (suc n) (suc j) x h = repeat-get n j x (omega arith)

-- The event is at most as old as the end of the bucket's minute, and older than its start; the last
-- bucket also has the events of the coming minute.
abbrev pub in_minute : ℕ → ℕ → ℕ → ℕ → Bool
in_minute window now j t =
    let age = window - 1 - j in
    ltb now (t + (age + 1) * (60 * 10 ^ 9))
    && (if age == 0 then ltb t (now + 60 * 10 ^ 9) else leb (t + age * (60 * 10 ^ 9)) now)

abbrev pub has_failed : NormalizedEvent → Bool
has_failed e = elim e.status [ pos n ↦ leb 400 n | negsuc n ↦ false ]

abbrev pub is_cut : NormalizedEvent → Bool
is_cut e = has_tag e "waf_block" || elim e.status [ pos n ↦ n == 403 | negsuc n ↦ false ]

-- The events that a bucket is about: of the asset, if one is asked for, and of its minute.
abbrev pub belongs : String → ℕ → ℕ → ℕ → NormalizedEvent → Bool
belongs asset window now j e =
    (is_blank asset || str_eq e.asset asset) && in_minute window now j e.timestamp

bucket_index-in_minute :
    (window now j t : ℕ)
    → j < window
    → is_at j (bucket_index window now t) ≡ in_minute window now j t
unfolding bucket_index
bucket_index-in_minute window now j t h = ground arith

falls_into-belongs :
    (asset : String) (window now j : ℕ) (e : NormalizedEvent)
    → j < window
    → falls_into asset window now j e ≡ belongs asset window now j e
falls_into-belongs asset window now j e h =
    ap (λ b. of_asset asset e && b) (bucket_index-in_minute window now j e.timestamp h)

count_if_same :
    (p q : NormalizedEvent → Bool) (es : List NormalizedEvent)
    → ((e : NormalizedEvent) → p e ≡ q e)
    → count_if p es ≡ count_if q es
count_if_same p q [] h = refl
count_if_same p q (e ∷ es) h = rw (h e, count_if_same p q es h) refl

failed_lem : (e : NormalizedEvent) → is_error e.status ≡ has_failed e
failed_lem e = ground arith

cut_lem : (e : NormalizedEvent) → is_blocked e ≡ is_cut e
cut_lem e = ground arith

-- What one bucket counts.
pub record Counts (asset : String) (window now j : ℕ) (snap : List NormalizedEvent) (b : Bucket)
    : Type 0 where
  pub requests : b.requests ≡ count_if (belongs asset window now j) snap
  pub errors : b.errors ≡ count_if (λ e. belongs asset window now j e && has_failed e) snap
  pub blocked : b.blocked ≡ count_if (λ e. belongs asset window now j e && is_cut e) snap

-- For a window of n minutes, at most 120, every bucket is there, and the bucket j counts of the events
-- in the ring those of the asset that are less than n - j minutes old, and at least n - 1 - j, or for
-- the last bucket less than a minute ahead: all of them, those with a status from 400 on, and those
-- that the edge has marked as blocked or whose status is 403.
pub metrics_lem :
    (n j : ℕ) (asset : String) (now : ℕ) (snap : List NormalizedEvent)
    → n ≤ 120
    → j < n
    → (bs : List Bucket) × (metrics (pos n) asset now snap ≡ some bs)
      × ((b : Bucket) × (get_elem? bs j ≡ some b) × Counts asset n now j snap b)
unfolding metrics
metrics_lem n j asset now snap h k =
    let narrow : ltb 120 n ≡ false = ground arith in
    let (all, bad, cut) = tally-counts asset n now snap j empty_bucket in
    let same = λ (e : NormalizedEvent). falls_into-belongs asset n now j e k in
    (
      count_requests asset n now snap (repeat n empty_bucket),
      rw narrow,
      (
        tally asset n now j snap empty_bucket,
        count_requests-tally asset n now snap j (repeat n empty_bucket) empty_bucket
            (repeat-get n j empty_bucket k),
        record {
          requests = omega (arith, all, count_if_same _ _ snap same);
          errors = omega (
            arith,
            bad,
            count_if_same (λ e. falls_into asset n now j e && is_error e.status)
                (λ e. belongs asset n now j e && has_failed e) snap
                (λ e. rw (same e, failed_lem e) refl),
          );
          blocked = omega (
            arith,
            cut,
            count_if_same (λ e. falls_into asset n now j e && is_blocked e)
                (λ e. belongs asset n now j e && is_cut e) snap (λ e. rw (same e, cut_lem e) refl),
          );
        },
      ),
    )

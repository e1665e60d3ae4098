-- ===== src/Server/Intake/Room.antt =====
-- internal/server/handlers.go `Ingest`: the channel's capacity and the number of accepted entries.
use sentinel_api.Base.{
  ℕ, ◌+◌, ◌≤◌, String, Option, none, some, List, [], ◌∷◌, ◌++◌, ◌≡◌, refl, sym, ap, ◌∙◌, arith, inl,
  inr, length, length-append, ltb, is_blank, Str, Bool-cases, Option-cases, trim_space, any,
  is_char,
}
use mathlib.Core.List.{append-nil, append_assoc}
use sentinel_api.Event.{source_text}
use sentinel_api.Ingest.Value.{RawLog}
use sentinel_api.Server.Intake.{
  Intake, Reply, unauthorized, bad_request, accepted, is_authorized, lines_of, offer_raw,
  parse_items, reply, intake,
}
use sentinel_api.Ingest.Tail.{starts}

-- The channel got `new` behind what it held, as many entries as were accepted, and has room for all.
pub record Grown (cap : ℕ) (start q : Intake) : Type 0 where
  pub new : List RawLog
  pub behind : q.queue ≡ start.queue ++ new
  pub counted : q.taken ≡ start.taken + length new
  pub within : length q.queue ≤ cap

module _ (cap : ℕ) (decode : Str → Option RawLog) where
  offer_raw-Grown :
      (o : Option RawLog) (start q : Intake)
      → Grown cap start q
      → Grown cap start (offer_raw cap decode o q)
  unfolding offer_raw
  offer_raw-Grown none start q g = g
  offer_raw-Grown (some raw) start q g = elim (Bool-cases (is_blank (source_text raw.source))) [
    | inl b ↦ rw b g
    | inr b ↦ elim (Bool-cases (ltb (length q.queue) cap)) [
      | inr full ↦ rw (b, full) g
      | inl room ↦
          rw (b, room)
            (record {
              new = g.new ++ raw ∷ [];
              behind = ap (λ l. l ++ raw ∷ []) g.behind ∙ append_assoc start.queue g.new (raw ∷ []);
              counted = omega (arith, g.counted, length-append g.new (raw ∷ []));
              within = ground (arith, length-append q.queue (raw ∷ []), room);
            })
    ]
  ]

  -- Whatever is posted, accepted entries go behind what the channel held, are counted exactly, and never
  -- exceed its capacity.
  pub parse_items-Grown :
      (items : List Str) (start q : Intake)
      → Grown cap start q
      → Grown cap start (parse_items cap decode items q)
  unfolding parse_items
  parse_items-Grown [] start q g = g
  parse_items-Grown (item ∷ items) start q g =
      parse_items-Grown items start (offer_raw cap decode (decode item) q)
        (offer_raw-Grown (decode item) start q g)

abbrev pub told : Reply → ℕ
told unauthorized = 0
told bad_request = 0
told (accepted n) = n

-- The channel got some entries behind what it held, within its capacity, and the answer tells how many.
pub record IsTaken (cap : ℕ) (queue : List RawLog) (r : Reply × List RawLog) : Type 0 where
  pub new : List RawLog
  pub behind : r.1 ≡ queue ++ new
  pub within : length r.1 ≤ cap
  pub answer : told r.0 ≡ length new

untouched :
    (cap : ℕ) (queue : List RawLog) (r : Reply)
    → told r ≡ 0
    → length queue ≤ cap
    → IsTaken cap queue (r, queue)
untouched cap queue r n h = record {
  new = [];
  behind = sym (append-nil queue);
  within = h;
  answer = n;
}

module _ (cap : ℕ) (decode : Str → Option RawLog) (decode_list : Str → Option (List Str)) where
  items-IsTaken :
      (items : List Str) (queue : List RawLog)
      → length queue ≤ cap
      → IsTaken cap queue
          (reply cap decode (parse_items cap decode items (record { queue = queue; taken = 0 })))
  items-IsTaken items queue h =
      let start : Intake = record { queue = queue; taken = 0 } in
      let g =
        parse_items-Grown cap decode items start start (record {
          new = [];
          behind = sym (append-nil queue);
          counted = omega arith;
          within = h;
        }) in
      record {
        new = g.new;
        behind = g.behind;
        within = g.within;
        answer = omega (arith, g.counted);
      }

  -- Whatever is posted, with whatever token, the entries that are accepted stand behind what the channel
  -- held, which never exceeds its capacity, and the answer tells their number; an answer 401 or 400
  -- leaves the channel as it was.
  pub intake_lem :
      (token header : String) (body : Str) (queue : List RawLog)
      → length queue ≤ cap
      → IsTaken cap queue (intake cap decode decode_list token header body queue)
  unfolding intake
  intake_lem token header body queue h = elim (Bool-cases (is_authorized token header)) [
    | inr barred ↦ rw (intake, barred) (untouched cap queue unauthorized refl h)
    | inl let_in ↦ elim (Bool-cases (starts b'[' (trim_space body))) [
      | inl list ↦ elim (Option-cases (decode_list (trim_space body))) [
        | inl bad ↦ rw (intake, let_in, list, bad) (untouched cap queue bad_request refl h)
        | inr (items, good) ↦ rw (intake, let_in, list, good) (items-IsTaken items queue h)
      ]
      | inr other ↦ elim (Bool-cases (any (is_char b'\n') (trim_space body))) [
        | inl several ↦
            rw (intake, let_in, other, several) (items-IsTaken (lines_of (trim_space body)) queue h)
        | inr one ↦ rw (intake, let_in, other, one) (items-IsTaken (trim_space body ∷ []) queue h)
      ]
    ]
  ]

-- ===== src/Server/Desk/Stream.antt =====
-- internal/server/handlers.go: what `StreamRequests` writes. Its `select` gives the signals in the order
-- in which it takes them, and `encode` is json.Marshal.
use sentinel_api.Base.{
  String, Bool, true, false, Option, none, some, List, [], ◌∷◌, map, filter, All, ◌≡◌, refl, ap,
  not, ◌&&◌, is_blank, str_eq, if◌then◌else◌, Bool-cases, inl, inr,
}
use sentinel_api.Event.{NormalizedEvent}

-- An event or a tick of the heartbeat, each with whether writing its line succeeds, or the end of the
-- request.
pub data Signal : Type 0 where
  arrived : NormalizedEvent → Bool → Signal
  beat : Bool → Signal
  gone : Signal

pub data Line : Type 0 where
  request_line : String → Line
  keepalive : Line

-- `asset != "" && ev.Asset != asset`
abbrev pub is_other : String → NormalizedEvent → Bool
is_other asset ev = not (is_blank asset) && not (str_eq ev.asset asset)

module _ (encode : NormalizedEvent → Option String) (asset : String) where
  -- A line is written, and the loop goes on if that succeeded.
  abbrev pub write : Line → Bool → List Line → List Line
  write line true rest = line ∷ rest
  write line false rest = []

  unfoldable pub stream_event : NormalizedEvent → Bool → List Line → List Line
  stream_event ev works rest =
      if is_other asset ev
      then rest
      else elim (encode ev) [ none ↦ rest | some data_ ↦ write (request_line data_) works rest ]

  unfoldable pub stream : List Signal → List Line
  unfolding stream_event
  stream [] = []
  stream (arrived ev works ∷ l) = stream_event ev works (stream l)
  stream (beat works ∷ l) = write keepalive works (stream l)
  stream (gone ∷ l) = []

-- The events that arrive before the request ends.
abbrev pub arrivals : List Signal → List NormalizedEvent
arrivals [] = []
arrivals (arrived ev works ∷ l) = ev ∷ arrivals l
arrivals (beat works ∷ l) = arrivals l
arrivals (gone ∷ l) = []

abbrev pub WorksAt : Signal → Type 0
WorksAt (arrived ev works) = works ≡ true
WorksAt (beat works) = works ≡ true
WorksAt gone = Unit

-- The data of the request lines.
abbrev pub data_of : List Line → List String
data_of [] = []
data_of (request_line s ∷ l) = s ∷ data_of l
data_of (keepalive ∷ l) = data_of l

-- While every write succeeds and every event can be encoded, the request lines are exactly the
-- events of the asset that arrive before the request ends, in order; an empty asset asks for all.
pub stream_lem :
    (encode : NormalizedEvent → Option String) (asset : String) (show : NormalizedEvent → String)
    (l : List Signal)
    → ((ev : NormalizedEvent) → encode ev ≡ some (show ev))
    → All WorksAt l
    → data_of (stream encode asset l)
      ≡ map show (filter (λ ev. not (is_other asset ev)) (arrivals l))
unfolding stream stream_event
stream_lem encode asset show [] e w = refl
stream_lem encode asset show (gone ∷ l) e w = refl
stream_lem encode asset show (beat works ∷ l) e w = rw w.0 (stream_lem encode asset show l e w.1)
stream_lem encode asset show (arrived ev works ∷ l) e w = elim (Bool-cases (is_other asset ev)) [
  | inl h ↦ rw h (stream_lem encode asset show l e w.1)
  | inr h ↦ rw (h, e ev, w.0) (ap (◌∷◌ (show ev)) (stream_lem encode asset show l e w.1))
]

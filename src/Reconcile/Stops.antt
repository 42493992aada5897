-- ===== src/Reconcile/Stops.antt =====
-- The stops that stand at the broker against the open positions: `_stop_adjustments`.
use bazarabot.Base.{
  ℕ, Bool, false, not, ◌&&◌, ◌||◌, String, ◌==◌, List, [], ◌∷◌, ◌++◌, Option, none, some, any, keep,
  sort_by, is_none, get_or, ltb, eqb, if◌then◌else◌,
}
use bazarabot.Base.Int.{pos}
use bazarabot.Base.Decimal.{Decimal, of_int, leb_dec}
use bazarabot.Base.Dict.{Dict, get, leb_text}
use bazarabot.Base.Exec.{Result, ok, err, pure, raise, ◌>>=◌, ◌>>◌}
use bazarabot.Models.{Adjustment, Instrument, Position, StopOrderRecord, is_exchange}
use bazarabot.Errors.{Error, instrument_not_found, is_unreachable}
use bazarabot.Db.Store.{Alert}
use bazarabot.Db.Store
use bazarabot.Execution.Desk.{Env, Action, on_db, on_broker}
use bazarabot.Execution.Entries.{distance}
use bazarabot.Execution.Stops.{nonempty}
use bazarabot.Reconcile.Holdings.{equal_lots}

-- `_identifier`
abbrev pub identifier : StopOrderRecord → String
identifier stop = get_or (nonempty stop.stop_order_id) stop.key

abbrev pub is_named : String → StopOrderRecord → Bool
is_named key stop =
    stop.key == key || (elim stop.stop_order_id [ none ↦ false | some id ↦ id == key ])

abbrev pub oldest_instant : ℕ → List StopOrderRecord → ℕ
oldest_instant acc [] = acc
oldest_instant acc (stop ∷ stops) =
    oldest_instant (if ltb stop.created_at.instant acc then stop.created_at.instant else acc) stops

-- The first member that passes a test, and the others: `stop is not kept`.
abbrev pub take_out : {A : Type 0} → (A → Bool) → A → List A → A × List A
take_out p x [] = (x, [])
take_out p x (y ∷ ys) =
    if p x then (x, y ∷ ys) else (let (kept, others) = take_out p y ys in (kept, x ∷ others))

abbrev pub is_oldest : StopOrderRecord → List StopOrderRecord → StopOrderRecord → Bool
is_oldest stop stops s = eqb s.created_at.instant (oldest_instant stop.created_at.instant stops)

-- The stop of the position's own key where there is one, else the oldest.
abbrev pub kept_test :
    Option String → StopOrderRecord → List StopOrderRecord → StopOrderRecord → Bool
kept_test none stop stops s = is_oldest stop stops s
kept_test (some key) stop stops s =
    if any (is_named key) (stop ∷ stops) then is_named key s else is_oldest stop stops s

-- `_keep_stop`, and the stops beside the one that is kept.
unfoldable pub keep_stop :
    Position → StopOrderRecord → List StopOrderRecord → StopOrderRecord × List StopOrderRecord
keep_stop position stop stops =
    take_out (kept_test (nonempty position.stop_order_key) stop stops) stop stops

-- `_is_mispriced`
unfoldable pub is_mispriced : Decimal → Decimal → Decimal → Bool
is_mispriced broker_price local_price increment =
    leb_dec increment (distance broker_price local_price)

abbrev pub is_mispriced_by : Option Decimal → Decimal → Decimal → Bool
is_mispriced_by none broker_price local_price = false
is_mispriced_by (some increment) broker_price local_price =
    is_mispriced broker_price local_price increment

abbrev pub identifiers : List StopOrderRecord → List String
identifiers [] = []
identifiers (stop ∷ stops) = identifier stop ∷ identifiers stops

abbrev pub duplicates : Position → StopOrderRecord → List StopOrderRecord → List Adjustment
duplicates position kept [] = []
duplicates position kept (other ∷ others) =
    Adjustment.stop_duplicate position.ticker position.id (identifier kept)
      (identifiers (other ∷ others))
    ∷ []

-- The one finding on the price, the size or the owner of the stop that is kept.
unfoldable pub judge_kept : Position → StopOrderRecord → Option Decimal → List Adjustment
judge_kept position kept increment =
    if is_mispriced_by increment kept.stop_price position.stop_price
    then Adjustment.stop_mispriced position.ticker position.id position.stop_price kept.stop_price
      ∷ []
    else if not (equal_lots kept.lots position.lots)
    then Adjustment.stop_missized position.ticker position.id position.lots kept.lots ∷ []
    else if not (is_none increment)
        && (not (is_exchange position.stop_protection) || is_none position.stop_order_key)
    then Adjustment.stop_adoptable position.ticker position.id kept.stop_order_id ∷ []
    else []

abbrev pub stops_of : String → List StopOrderRecord → List StopOrderRecord
stops_of ticker stops = keep (λ stop. stop.ticker == ticker) stops

abbrev pub judge_position : Position → List StopOrderRecord → Option Decimal → List Adjustment
judge_position position [] increment =
    if is_exchange position.stop_protection
    then Adjustment.stop_missing position.ticker position.id ∷ []
    else []
judge_position position (stop ∷ stops) increment =
    let (kept, others) = keep_stop position stop stops in
    duplicates position kept others ++ judge_kept position kept increment

abbrev pub judge_all : List Position → List StopOrderRecord → Dict Decimal → List Adjustment
judge_all [] stops increments = []
judge_all (position ∷ positions) stops increments =
    judge_position position (stops_of position.ticker stops) (get position.ticker increments)
    ++ judge_all positions stops increments

-- `claimed`: the identifiers of the stops of every open position's ticker.
abbrev pub claimed : List Position → List StopOrderRecord → List String
claimed [] stops = []
claimed (position ∷ positions) stops =
    identifiers (stops_of position.ticker stops) ++ claimed positions stops

abbrev pub is_owned : List Position → List String → StopOrderRecord → Bool
is_owned opened marks stop =
    any (λ mark. mark == identifier stop) marks
    || any (λ (p : Position). p.ticker == stop.ticker) opened

abbrev pub orphans : List StopOrderRecord → List Adjustment
orphans [] = []
orphans (stop ∷ stops) =
    Adjustment.stop_orphan stop.ticker stop.stop_order_id stop.key ∷ orphans stops

-- `_stop_adjustments`
unfoldable pub stop_adjustments :
    List Position → List StopOrderRecord → Dict Decimal → List Adjustment
stop_adjustments opened stops increments =
    judge_all opened stops increments
    ++ orphans (keep (λ stop. not (is_owned opened (claimed opened stops) stop)) stops)

module _ {W : Type 0} (env : Env W) where
  -- The increment in a broker's answer, where there is one above zero; the others are told.
  abbrev pub increment_of : String → Result Error Instrument → Action W (Dict Decimal)
  increment_of ticker (ok instrument) =
      if leb_dec instrument.min_price_increment (of_int (pos 0))
      then (do
        on_db (Store.alert (Alert.increment_unusable ticker instrument.min_price_increment))
        pure [])
      else pure ((ticker, instrument.min_price_increment) ∷ [])
  increment_of ticker (err instrument_not_found) = do
    on_db (Store.alert (Alert.increment_unavailable ticker))
    pure []
  increment_of ticker (err e) =
      if is_unreachable e
      then (do on_db (Store.alert (Alert.increment_unavailable ticker)); pure [])
      else raise e

  unfoldable pub read_increment : String → Action W (Dict Decimal)
  read_increment ticker d =
      let (answer, d') = on_broker (env.broker.get_instrument ticker) d in
      increment_of ticker answer d'

  -- `_price_increments`, for tickers in order and each once.
  unfoldable pub price_increments : List String → Action W (Dict Decimal)
  price_increments [] = pure []
  price_increments (ticker ∷ tickers) = do
    found ← read_increment ticker
    others ← price_increments tickers
    pure (found ++ others)

-- The members of a set of texts in order.
abbrev pub add_member : String → List String → List String
add_member t ts = if any (λ x. x == t) ts then ts else t ∷ ts

abbrev pub stopped_tickers : List Position → List StopOrderRecord → List String
stopped_tickers [] stops = []
stopped_tickers (p ∷ ps) stops =
    let others = stopped_tickers ps stops in
    if any (λ (stop : StopOrderRecord). stop.ticker == p.ticker) stops
    then add_member p.ticker others
    else others

-- `sorted(tickers)`
abbrev pub sorted_tickers : List Position → List StopOrderRecord → List String
sorted_tickers opened stops = sort_by leb_text (stopped_tickers opened stops)

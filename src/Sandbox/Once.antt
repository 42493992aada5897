-- ===== src/Sandbox/Once.antt =====
-- A standing stop has one chance for each bar.
use bazarabot.Base.{
  ◌⊎◌, eq_iff, ◌≡◌, refl, ap, sym, ◌∙◌, true, false, Bool-cases, Option-cases, inl, inr, String,
  Option, none, some, ℕ, any, eqb, List, [], ◌∷◌, ◌++◌, arith, ◌==◌, Bool,
}
use bazarabot.Base.Int.{ℤ}
use bazarabot.Base.Decimal.{Decimal}
use bazarabot.Base.Dict.{Dict, get}
use bazarabot.Base.Exec.{Result, ok, err, modify, continue}
use bazarabot.Base.Exec.Keeps.{Keeps, Keeps-pure, Keeps-if, Keeps-bind, keeps_rules}
use bazarabot.Errors.{Error}
use bazarabot.Models.{Candle, Datetime, Instrument, OrderRecord, StopOrderRecord}
use bazarabot.Sandbox.Exchange.{Exchange, Phase, bar_for, last_bar, visible_at, or_empty}
use bazarabot.Sandbox.Fills.{put_stop}
use bazarabot.Sandbox.Firing.{
  collect, put_executed, fire, fire_on, fire_each, is_checked, checked_stop, firing_bar, is_active,
}
use bazarabot.Sandbox.Advance.{advance, fire_stops, move_to, mark_checked, entered, new_bar}
use bazarabot.Sandbox.Positive.{Keeps-checked_order}

-- What a fired stop leaves alone.
abbrev SameBars : Exchange → Exchange → Type 0
SameBars x y = (y.bars ≡ x.bars) × (y.stops_checked ≡ x.stops_checked)

module _ (x : Exchange) where
  collect_frame :
      (amount : Decimal) (figi : String) (lots : ℤ)
      → Keeps (SameBars x) (modify {E = Error} (collect amount figi lots))
  collect_frame amount figi lots = record { at = λ y h. h }

  put_executed_frame :
      (id : String) (fill : OrderRecord)
      → Keeps (SameBars x) (modify {E = Error} (put_executed id fill))
  put_executed_frame id fill = record { at = λ y h. h }

  put_stop_frame :
      (key : String) (stop : StopOrderRecord)
      → Keeps (SameBars x) (modify {E = Error} (put_stop key stop))
  put_stop_frame key stop = record { at = λ y h. h }

  checked_stop_frame : (stop : StopOrderRecord) → Keeps (SameBars x) (checked_stop stop)
  checked_stop_frame stop = search keeps_rules

  fire_frame :
      (at : Datetime) (key : String) (stop : StopOrderRecord) (instrument : Instrument)
      (bar : Candle)
      → Keeps (SameBars x) (fire at key stop instrument bar)
  unfolding fire
  fire_frame at key stop instrument bar =
      search
        (
          keeps_rules, collect_frame, put_executed_frame, put_stop_frame, checked_stop_frame,
          Keeps-checked_order,
        )
        depth 12

  fire_on_frame :
      (at : Datetime) (key : String) (stop : StopOrderRecord) (bar : Option Candle)
      → Keeps (SameBars x) (fire_on at key stop bar)
  fire_on_frame at key stop none = Keeps-pure tt
  fire_on_frame at key stop (some bar) = search (keeps_rules, fire_frame)

  fire_each_frame :
      (at : Datetime) (before : Exchange) (stops : Dict StopOrderRecord)
      → Keeps (SameBars x) (fire_each at before stops)
  unfolding fire_each
  fire_each_frame at before [] = Keeps-pure tt
  fire_each_frame at before ((key, stop) ∷ rest) =
      Keeps-bind _ _ (Keeps-if _ _ _ (fire_on_frame at key stop _) (Keeps-pure tt))
        λ _. fire_each_frame at before rest

any-append_left : (p : ℕ → Bool) (xs ys : List ℕ) → any p xs ≡ true → any p (xs ++ ys) ≡ true
any-append_left p [] ys h = cc
any-append_left p (x ∷ xs) ys h = ground (arith, any-append_left p xs ys)

any-append_right : (p : ℕ → Bool) (xs ys : List ℕ) → any p ys ≡ true → any p (xs ++ ys) ≡ true
any-append_right p [] ys h = h
any-append_right p (x ∷ xs) ys h = ground (arith, any-append_right p xs ys h)

abbrev is_at : ℕ → ℕ → Bool
is_at i t = eqb t i

new_bar_covers :
    (x : Exchange) (bar : Candle)
    → is_checked x bar ≡ false
    → any (is_at bar.timestamp.instant) (new_bar x (some bar)) ≡ true
new_bar_covers x bar h = ground arith

-- The bars that are entered are marked, one for each ticker with bars.
entered_covers :
    (x : Exchange) (bars : Dict (List Candle)) (ticker : String) (found : List Candle)
    (bar : Candle)
    → get ticker bars ≡ some found
    → bar_for ticker x ≡ some bar
    → is_checked x bar ≡ false
    → any (is_at bar.timestamp.instant) (entered x bars) ≡ true
entered_covers x [] ticker found bar g b h = cc
entered_covers x ((own, own_bars) ∷ rest) ticker found bar g b h =
    elim (Bool-cases (own == ticker)) [
      | inl e ↦
          any-append_left _ (new_bar x (bar_for own x)) (entered x rest)
            (rw (ap (λ t. bar_for t x) ((eq_iff own ticker).0 e) ∙ b) (new_bar_covers x bar h))
      | inr e ↦
          any-append_right _ (new_bar x (bar_for own x)) (entered x rest)
            (entered_covers x rest ticker found bar (rw e at g) b h)
    ]

none_visible : (now : Option Datetime) → last_bar (visible_at now []) ≡ none
none_visible none = refl
none_visible (some now) = refl

abbrev AllChecked : Exchange → Type 0
AllChecked x =
    (ticker : String) (bar : Candle) → bar_for ticker x ≡ some bar → is_checked x bar ≡ true

marked-AllChecked : (x : Exchange) → AllChecked (mark_checked (entered x x.bars) x)
marked-AllChecked x ticker bar b = elim (Bool-cases (is_checked x bar)) [
  | inl e ↦ any-append_right _ (entered x x.bars) x.stops_checked e
  | inr e ↦
      any-append_left _ (entered x x.bars) x.stops_checked
        (by_ticker e (Option-cases (get ticker x.bars)))
]
  where
    by_ticker :
        is_checked x bar ≡ false
        → (get ticker x.bars ≡ none) ⊎ ((found : List Candle) × (get ticker x.bars ≡ some found))
        → any (is_at bar.timestamp.instant) (entered x x.bars) ≡ true
    by_ticker e (inl g) = cc (none_visible x.now, b, g)
    by_ticker e (inr (found, g)) = entered_covers x x.bars ticker found bar g b e

module _ (z : Exchange) (all : AllChecked z) where
  none_fires :
      (stop : StopOrderRecord) (found : Option Candle)
      → bar_for stop.ticker z ≡ found
      → firing_bar z stop found ≡ none
  none_fires stop none h = refl
  none_fires stop (some bar) h = rw (all stop.ticker bar h) refl

  none_fire :
      (at : Datetime) (stops : Dict StopOrderRecord) (s : Exchange)
      → fire_each at z stops s ≡ (ok tt, s)
  unfolding fire_each
  none_fire at [] s = refl
  none_fire at ((key, stop) ∷ rest) s = elim (Bool-cases (is_active stop.status)) [
    | inl e ↦ rw (e, none_fires stop (bar_for stop.ticker z) refl) (none_fire at rest s)
    | inr e ↦ rw e (none_fire at rest s)
  ]

  none_new :
      (found : Option Candle) (ticker : String) → bar_for ticker z ≡ found → new_bar z found ≡ []
  none_new none ticker h = refl
  none_new (some bar) ticker h = rw (all ticker bar h) refl

  none_entered : (bars : Dict (List Candle)) → entered z bars ≡ []
  none_entered [] = refl
  none_entered ((ticker, bars) ∷ rest) =
      rw (none_new (bar_for ticker z) ticker refl) (none_entered rest)

module _ (at later : Datetime) (phase phase' : Phase) (x : Exchange)
    (same : (ticker : String)
      → bar_for ticker (move_to later phase' x) ≡ bar_for ticker (move_to at phase x)) where
  abbrev entry : Exchange
  entry = move_to at phase x

  abbrev marking : Result Error (Unit {0}) → Exchange → Result Error (Unit {0}) × Exchange
  marking r y = continue r (λ _. modify (mark_checked (entered entry entry.bars))) y

  -- All bars at the later moment were marked at the first.
  later_checked :
      (r : Result Error (Unit {0})) (y : Exchange)
      → SameBars entry y
      → (marking r y).0 ≡ ok tt
      → AllChecked (move_to later phase' (marking r y).1)
  later_checked (err e) y f h ticker bar b = cc
  later_checked (ok a) y f h ticker bar b =
      ap (λ ts. any (is_at bar.timestamp.instant) (entered entry entry.bars ++ ts)) f.1
      ∙ marked-AllChecked entry ticker bar (
          sym (same ticker)
          ∙ sym (ap (λ bs. last_bar (visible_at (some later) (or_empty (get ticker bs)))) f.0)
          ∙ b)

  idle :
      (y : Exchange)
      → AllChecked (move_to later phase' y)
      → advance later phase' y ≡ (ok tt, move_to later phase' y)
  unfolding advance fire_stops
  idle y all =
      rw
        (
          none_fire (move_to later phase' y) all later y.stops (move_to later phase' y),
          none_entered (move_to later phase' y) all y.bars,
        )
        refl

  -- After an `advance` that raises nothing, a second one to a moment within the same bars only moves
  -- the cursor: no stop fires and nothing else changes.
  pub advance_once :
      (advance at phase x).0 ≡ ok tt
      → advance later phase' (advance at phase x).1
        ≡ (ok tt, move_to later phase' (advance at phase x).1)
  unfolding advance fire_stops
  advance_once h =
      let (r, y) = fire_each at entry entry.stops entry in
      idle (marking r y).1
        (later_checked r y ((fire_each_frame entry at entry entry.stops).at entry (refl, refl)) h)

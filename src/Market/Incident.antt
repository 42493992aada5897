-- ===== src/Market/Incident.antt =====
-- Refreshes of zarabot/market/session.py that find the schedule unavailable.
use bazarabot.Base.{
  ap, ◌∙◌, Bool, true, false, not, ◌≡◌, refl, List, [], ◌∷◌, ◌++◌, All, Bool-cases, inl, inr,
}
use bazarabot.Base.Exec.{Result, ok, err}
use bazarabot.Models.{SessionInfo}
use bazarabot.Errors.{
  Error, broker_unavailable, broker_rate_limited, order_rejected, value_error, integrity_error,
  database_error, duplicate_order_error, order_state_error, position_state_error,
  stop_order_rejected, order_not_found, instrument_not_found, exit_failed, not_advanced,
  not_advanced,
}
use bazarabot.Db.Store.{Alert}
use bazarabot.Market.{Guard, has_trading_sessions, report_unavailable, refresh}

-- The broker could not be asked, or its schedule has no trading day.
abbrev pub is_unavailable : Result Error (List SessionInfo) → Bool
is_unavailable (err broker_unavailable) = true
is_unavailable (err broker_rate_limited) = true
is_unavailable (err e) = false
is_unavailable (ok fetched) = not (has_trading_sessions fetched)

pub refresh_all : List (Result Error (List SessionInfo)) → Guard → Guard
refresh_all [] g = g
refresh_all (a ∷ rest) g = refresh_all rest (refresh a g).1

-- The guard after an incident that was told of.
abbrev pub told : Guard → Guard
told g = record g {
  store = record g.store { outbox = g.store.outbox ++ Alert.schedule_unavailable ∷ [] };
  alerted = true;
}

first_time : (g : Guard) → g.alerted ≡ false → (report_unavailable g).1 ≡ told g
unfolding report_unavailable
first_time g h = rw h

again : (g : Guard) → g.alerted ≡ true → (report_unavailable g).1 ≡ g
unfolding report_unavailable
again g h = rw h

reports :
    (a : Result Error (List SessionInfo)) (g : Guard)
    → is_unavailable a ≡ true
    → refresh a g ≡ report_unavailable g
unfolding refresh
reports (ok fetched) g h = elim (Bool-cases (has_trading_sessions fetched)) [
  | inl some_day ↦ cc (rw some_day at h)
  | inr no_day ↦ rw no_day
]
reports (err broker_unavailable) g h = refl
reports (err broker_rate_limited) g h = refl
reports (err (order_rejected why)) g h = cc
reports (err value_error) g h = cc
reports (err integrity_error) g h = cc
reports (err database_error) g h = cc
reports (err duplicate_order_error) g h = cc
reports (err order_state_error) g h = cc
reports (err position_state_error) g h = cc
reports (err stop_order_rejected) g h = cc
reports (err order_not_found) g h = cc
reports (err instrument_not_found) g h = cc
reports (err exit_failed) g h = cc
reports (err not_advanced) g h = cc

stays_told :
    (rest : List (Result Error (List SessionInfo))) (g : Guard)
    → All (λ a. is_unavailable a ≡ true) rest
    → g.alerted ≡ true
    → refresh_all rest g ≡ g
unfolding refresh_all
stays_told [] g h known = refl
stays_told (a ∷ rest) g h known =
    let same : (refresh a g).1 ≡ g = ap (λ r. r.1) (reports a g h.0) ∙ again g known in
    ap (refresh_all rest) same ∙ stays_told rest g h.1 known

-- However many refreshes in a row find the schedule unavailable, the cache stays, and one alert is
-- sent, by the first of them.
pub schedule_alerted_once :
    (a : Result Error (List SessionInfo)) (rest : List (Result Error (List SessionInfo)))
    (g : Guard)
    → All (λ x. is_unavailable x ≡ true) (a ∷ rest)
    → g.alerted ≡ false
    → refresh_all (a ∷ rest) g ≡ told g
unfolding refresh_all
schedule_alerted_once a rest g h silent =
    let once : (refresh a g).1 ≡ told g = ap (λ r. r.1) (reports a g h.0) ∙ first_time g silent in
    ap (refresh_all rest) once ∙ stays_told rest (told g) h.1 refl

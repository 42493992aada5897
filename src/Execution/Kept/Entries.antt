-- ===== src/Execution/Kept/Entries.antt =====
-- What an entry keeps, and what its one market order leads to.
use bazarabot.Base.{String, Option, none, some, is_some}
use bazarabot.Base.Int.{ℤ, pos}
use bazarabot.Base.Decimal.{Decimal}
use bazarabot.Base.Exec.Keeps.{
  Leads, Keeps, Keeps-pure, Keeps-bind, Keeps-raise, Keeps-raise_if, Leads-bind, Leads-then,
  Leads-catch, Leads-if, Leads-weaken, keeps_rules,
}
use bazarabot.Models.{Instrument, Intent, OrderRecord, OrderStatus, Side, Signal}
use bazarabot.Errors.{Error, position_state_error}
use bazarabot.Db.Store.{clock_now, Database}
use bazarabot.Db.Preserved.{
  IsPreserved, InDb, Keeps-alert, Keeps-list_open, Keeps-open_position, Keeps-settle,
}
use bazarabot.Config.{Config}
use bazarabot.Execution.Desk.{Env, new_key}
use bazarabot.Execution.Entries
use bazarabot.Execution.Kept.{
  IsQuiet, Submits, InDesk, Leads-on_broker, Keeps-on_db, submitting_kept, settled_kept,
  Keeps-new_key, Keeps-write,
}
use bazarabot.Execution.Kept.Stops.{Keeps-place_stop}

module _ (R : Database → Type 0) (kept : IsPreserved R) where
  pub Keeps-already_open : (ticker : String) → Keeps (InDb R) (Entries.already_open ticker)
  unfolding Entries.already_open
  Keeps-already_open ticker = search (keeps_rules, Keeps-list_open R)

  Keeps-settle_partial :
      (key : String) (o : OrderRecord) → Keeps (InDb R) (Entries.settle_partial key o)
  unfolding Entries.settle_partial
  Keeps-settle_partial key o = search (keeps_rules, Keeps-write R kept, Keeps-settle R kept)

  Keeps-alert_fill_slippage :
      (cfg : Config) (signal : Signal) (fill : Decimal)
      → Keeps (InDb R) (Entries.alert_fill_slippage cfg signal fill)
  unfolding Entries.alert_fill_slippage
  Keeps-alert_fill_slippage cfg signal fill = search (keeps_rules, Keeps-alert R)

module _ {W : Type 0} (env : Env W) (R : Database → Type 0) (kept : IsPreserved R) (Q : W → Type 0)
    (quiet : IsQuiet env.broker Q) where
  Keeps-open_at :
      (signal : Signal) (order : OrderRecord) (instrument : Instrument) (price : Decimal)
      → Keeps (InDb R) (Entries.open_at env signal order instrument price)
  unfolding Entries.open_at
  Keeps-open_at signal order instrument price = record {
    at = λ s h.
        (Keeps-write R kept _
            (Keeps-open_position R kept signal order instrument _ _ (clock_now s))).at
          s h;
  }

  Keeps-open_from_fill :
      (signal : Signal) (order : OrderRecord) (instrument : Instrument)
      → Keeps (InDesk R Q) (Entries.open_from_fill env signal order instrument)
  unfolding Entries.open_from_fill
  Keeps-open_from_fill signal order instrument =
      search
        (
          keeps_rules,
          Keeps-on_db R Q,
          Keeps-open_at,
          Keeps-place_stop env R kept Q quiet,
          Keeps-alert_fill_slippage R kept,
        )
        depth 9

  settle_if_known_kept :
      (key : String) (o : Option OrderRecord)
      → Keeps (InDesk R Q) (Entries.settle_if_known env key o)
  settle_if_known_kept key none = Keeps-pure none
  settle_if_known_kept key (some o) =
      search (keeps_rules, Keeps-on_db R Q, Keeps-settle_partial R kept)

  pub Keeps-resolve_partial_entry :
      (key : String) → Keeps (InDesk R Q) (Entries.resolve_partial_entry env key)
  unfolding Entries.resolve_partial_entry
  Keeps-resolve_partial_entry key =
      search
        (
          keeps_rules,
          Leads-on_broker R Q Q,
          quiet.cancel_order,
          quiet.get_order_state,
          settle_if_known_kept,
        )
        depth 9

  Keeps-refuse_entry :
      (signal : Signal) (requested : ℤ)
      → Keeps (InDesk R Q) (Entries.refuse_entry env signal requested)
  unfolding Entries.refuse_entry
  Keeps-refuse_entry signal requested = Keeps-bind (new_key env) _ (Keeps-new_key R Q env) λ key.
      Keeps-bind _ _
        (submitting_kept R kept Q key signal.ticker Side.buy requested Intent.entry none)
        λ _.
          Keeps-bind _ _
            (settled_kept R kept Q key OrderStatus.rejected (pos 0) none none (some "max lots is 0")
              none)
            λ _. Keeps-raise _

  open_partial_kept :
      (signal : Signal) (instrument : Instrument) (lots : ℤ) (settled : Option OrderRecord)
      → Keeps (InDesk R Q) (Entries.open_partial env signal instrument lots settled)
  open_partial_kept signal instrument lots none = Keeps-raise _
  open_partial_kept signal instrument lots (some settled) =
      search (keeps_rules, Keeps-on_db R Q, Keeps-alert R, Keeps-open_from_fill) depth 9

  Keeps-book_entry :
      (key : String) (signal : Signal) (instrument : Instrument) (lots : ℤ) (posted : OrderRecord)
      → Keeps (InDesk R Q) (Entries.book_entry env key signal instrument lots posted)
  unfolding Entries.book_entry
  Keeps-book_entry key signal instrument lots posted =
      search
        (
          keeps_rules,
          Keeps-resolve_partial_entry,
          open_partial_kept,
          Keeps-on_db R Q,
          Keeps-write R kept,
          Keeps-settle R kept,
          Keeps-open_from_fill,
        )
        depth 9

  rejection_kept :
      (key : String) (signal : Signal) (e : Error)
      → Keeps (InDesk R Q) (Entries.reject_entry env key signal e)
  rejection_kept key signal e =
      search (keeps_rules, Keeps-on_db R Q, Keeps-write R kept, Keeps-settle R kept, Keeps-alert R)
        depth 9

module _ {W : Type 0} (env : Env W) (R : Database → Type 0) (kept : IsPreserved R)
    (Q Q' : W → Type 0) (quiet : IsQuiet env.broker Q) (after : IsQuiet env.broker Q')
    (submits : Submits env.broker Q Q') (weaken : (w : W) → Q w → Q' w) where
  Leads-post_entry :
      (key : String) (signal : Signal) (instrument : Instrument) (lots : ℤ)
      → Leads (InDesk R Q) (InDesk R Q') (Entries.post_entry env key signal instrument lots)
  unfolding Entries.post_entry
  Leads-post_entry key signal instrument lots =
      Leads-catch Entries.is_rejection _ _
        (Leads-on_broker R Q Q' _ (submits key instrument.figi Side.buy lots))
        (rejection_kept env R kept Q' after key signal)

  Leads-submit_entry :
      (signal : Signal) (lots : ℤ) (instrument : Instrument)
      → Leads (InDesk R Q) (InDesk R Q') (Entries.submit_entry env signal lots instrument)
  unfolding Entries.submit_entry
  Leads-submit_entry signal lots instrument =
      Leads-bind (new_key env) _ (λ d h. (h.0, weaken d.world h.1)) (Keeps-new_key R Q env)
        λ key.
          Leads-bind _ _ (λ d h. (h.0, weaken d.world h.1))
            (submitting_kept R kept Q key signal.ticker Side.buy lots Intent.entry none)
            λ _.
              Leads-then _ _ (Leads-post_entry key signal instrument lots)
                (Keeps-book_entry env R kept Q' after key signal instrument lots)

  pub Leads-open_position :
      (signal : Signal) (lots : ℤ) (instrument : Instrument)
      → Leads (InDesk R Q) (InDesk R Q') (Entries.open_position env signal lots instrument)
  unfolding Entries.open_position
  Leads-open_position signal lots instrument =
      Leads-bind _ _ (λ d h. (h.0, weaken d.world h.1))
        (Keeps-on_db R Q _ (Keeps-already_open R kept signal.ticker))
        λ existing.
          Leads-bind _ _ (λ d h. (h.0, weaken d.world h.1))
            (Keeps-raise_if (is_some existing) position_state_error)
            λ _.
              Leads-bind _ _ (λ d h. (h.0, weaken d.world h.1))
                (Leads-on_broker R Q Q _ (quiet.get_max_lots instrument.figi))
                λ allowed.
                  Leads-if _ _ _
                    (Leads-weaken _ (λ d h. (h.0, weaken d.world h.1))
                      (Keeps-refuse_entry env R kept Q quiet signal lots))
                    (Leads-submit_entry signal (Entries.clamped allowed lots) instrument)

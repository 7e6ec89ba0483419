-- ===== src/Discord/Examples.antt =====
-- Runs of src/discord.rs: a play command whose deferral is answered too late.
use raydio.Prelude.{◌≡◌, ◌⊎◌, refl, Bool, true, false, none, some, [], ◌∷◌, codes}
use raydio.Discord.{Request, InteractionData, new}
use raydio.Discord.Calls.{
  timed_out, failed, acknowledge, updates_original, parsing, transport, error,
}
use raydio.Discord.Acknowledged.{times_out, finds, Missed, acknowledge-taken}
use raydio.Views.Message.{text_view}

abbrev play : Request
play = new (record {
  id = 50;
  interaction_data = some (InteractionData.application_command (codes "play") []);
  author = none;
  nick = none;
  channel = none;
  message = none;
})

acknowledge-taken_example :
    ((acknowledge play timed_out true).1 ≡ true)
    ⊎ (◌≡◌ {A = Bool} true true
        × ((acknowledge play timed_out true).1 ≡ false)
        × Missed timed_out true)
acknowledge-taken_example = acknowledge-taken play timed_out true true (times_out true) finds

-- A deferral that was taken is given up when the answer to it cannot be parsed.
acknowledge_unparsed : (acknowledge play (failed parsing) true).1 ≡ false
unfolding acknowledge new
acknowledge_unparsed = refl

error_retry :
    error play (codes "no") (failed transport)
    ≡ updates_original (text_view (codes "no")) ∷ updates_original (text_view (codes "no")) ∷ []
unfolding error new
error_retry = refl

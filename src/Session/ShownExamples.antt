-- ===== src/Session/ShownExamples.antt =====
-- A session of src/session.rs whose messages are those of src/views.rs, and its buttons.

use raydio.Prelude.{◌≡◌, refl, Bool, true, none, some, [], ◌∷◌, codes, arith, length}
use raydio.Playback.{default}
use raydio.Discord.{Request}
use raydio.Session.{Session, Env, EditOutcome, Panel, new}
use raydio.Voice.Bounds.{All}
use raydio.Views.Player.{player, player_buttons}
use raydio.Views.Pages.{page_buttons}
use raydio.Urls.{Urls}
use raydio.Views.Message.{View, text_view}
use raydio.Session.Panels.{player_view}
use raydio.Session.Shown.{with_content, with_views, IsTaken, player_view-IsTaken}
use raydio.Session.Buttons.{Understood, ReadBack, buttons-ReadBack}
use raydio.Session.Examples.{no_flags, club, settings, song}

buttons-ReadBack_example :
    All (All (Understood (codes "00ff"))) (player_buttons default (codes "00ff") true)
    × All (All (ReadBack (codes "00ff") 3)) (page_buttons (codes "00ff") 3 1)
buttons-ReadBack_example =
    buttons-ReadBack default (codes "00ff") true 3 1 refl (omega arith) (omega arith)

-- No text is a link, and a session shows the program's messages.
abbrev no_links : Urls
no_links = record { parse = λ t. none; append_pair = λ base key value. base }

abbrev blank : View
blank = text_view []

abbrev hall : Env Bool View
hall = record {
  config = settings;
  bot = 9;
  flags = no_flags;
  now = λ log. length log;
  ready = λ log. true;
  accepts = λ log. true;
  guild = λ log. some club;
  obtained = λ log. none;
  message = λ log. none;
  outcome = λ log. EditOutcome.delivered;
  random_token = λ n. n ∷ [];
  player_view = λ q token paused volume position. blank;
  queue_view = λ q token page paused volume position. (blank, true);
  text_view = λ text. blank;
  with_content = λ content view. view;
  same_view = λ v w. true;
  info_view = λ text log. blank;
}

abbrev panel : Panel View
panel = record { channel = 5; message = 70; token = codes "00ff"; last_view = none }

abbrev showing : Session View
showing = record (new hall 1) { queue = record default { current = some song }; panel = some panel }

abbrev press : Request
press = record {
  interaction = record {
    id = 51;
    interaction_data = none;
    author = none;
    nick = none;
    channel = some 5;
    message = some (5, 70);
  };
  name = [];
  options = [];
  custom_id = none;
}

player_view-IsTaken_example :
    All
      (All (IsTaken showing press))
      ((with_views no_links hall).with_content
        (some (codes "Queued."))
        (player_view (with_views no_links hall) showing)).components
player_view-IsTaken_example =
    player_view-IsTaken showing panel press 5 song no_links hall (some (codes "Queued.")) refl refl
      refl refl

-- The player of an empty queue says so, unless a note stands in its place.
empty_player :
    ((with_views no_links hall).with_content none
      (player_view (with_views no_links hall) (new hall 1))).content
    ≡ some (codes "Nothing is playing.")
unfolding with_views with_content player_view player new text_view
empty_player = refl

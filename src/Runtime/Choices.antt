-- ===== src/Runtime/Choices.antt =====
-- The choices of an autocompletion in src/runtime.rs: `ensure_bot_membership` and
-- `autocomplete_choices`, with the cache of choices. Discord's answer to the request for the bot's
-- membership, the places of the semaphore and `to_lowercase` are parameters.
use raydio.Prelude.{
  ℕ, ◌+◌, ◌-◌, Bool, true, false, not, ◌&&◌, ◌||◌, Option, none, some, List, [], ◌∷◌, ◌++◌, Text,
  codes, text_eq, ltb, leb, ◌==◌, if◌then◌else◌, length, get, modify, is_none, keep, trim, decimal,
}
use raydio.Prelude.Results.{Result, ok, err, is_ok}
use raydio.Config.{Config}
use raydio.Discord.{Request, user, option}
use raydio.Voice.{Cache, Member, member}
use raydio.Voice.Access.{access, caller_channel}
use raydio.Voice.Permissions.{Bitflags}
use raydio.Urls.{Urls, Input, classify}
use raydio.Resolver.{Response, Resolution, Failure}
use raydio.Views.Choices.{Choice, search_choices}
use raydio.Runtime.Resolve.{resolve}

-- `str::len`: the bytes in UTF-8.
unfoldable pub byte_length : Text → ℕ
byte_length [] = 0
byte_length (c ∷ s) =
    (if ltb c 0x80 then 1 else if ltb c 0x800 then 2 else if ltb c 0x10000 then 3 else 4)
    + byte_length s

-- An entry of the `autocomplete` map.
pub record Entry : Type 0 where
  pub key : Text
  pub at : ℕ
  pub choices : List Choice

unfoldable pub find_entry : Text → List Entry → Option Entry
find_entry key [] = none
find_entry key (e ∷ es) = if text_eq e.key key then some e else find_entry key es

unfoldable pub delete_entry : Text → List Entry → List Entry
delete_entry key [] = []
delete_entry key (e ∷ es) =
    let rest = delete_entry key es in if text_eq e.key key then rest else e ∷ rest

unfoldable pub set_entry : Entry → List Entry → List Entry
set_entry f [] = f ∷ []
set_entry f (e ∷ es) = let rest = set_entry f es in if text_eq e.key f.key then f ∷ es else e ∷ rest

-- `min_by_key` on the times
unfoldable pub oldest : List Entry → Option Entry
oldest [] = none
oldest (e ∷ es) = elim (oldest es) [
  | none ↦ some e
  | some f ↦ if leb e.at f.at then some e else some f
]

abbrev pub is_recent : ℕ → Entry → Bool
is_recent now e = ltb (now - e.at) 30000

-- Room for one entry: the oldest of 500 goes.
unfoldable pub evict : List Entry → List Entry
unfolding delete_entry oldest
evict es =
    if leb 500 (length es)
    then elim (oldest es) [ none ↦ es | some e ↦ delete_entry e.key es ]
    else es

unfoldable pub remember : ℕ → Entry → List Entry → List Entry
unfolding evict set_entry
remember now e es = set_entry e (evict (keep (is_recent now) es))

-- What the shared state and the world give to a search: the time, the two attempts to get a place
-- of the semaphore, and Discord's answer about the bot's membership.
pub record Search (P : Type 0) : Type 0 where
  pub flags : Bitflags P
  pub config : Config
  pub bot : ℕ
  pub urls : Urls
  pub answers : Text → Option Response
  pub lowercase : Text → Text
  pub node_ready : Bool
  pub membership : Option Member
  pub first_permit : Bool
  pub second_permit : Bool
  pub now : ℕ

pub record Shared (P : Type 0) : Type 0 where
  pub cache : Cache P
  pub autocomplete : List Entry

abbrev pub is_channel : Option ℕ → ℕ → Bool
is_channel none channel = true
is_channel (some active) channel = active == channel

module _ {P : Type 0} where
  unfoldable pub lacks_membership : ℕ → Cache P → Bool
  lacks_membership id c = elim (get id c.guilds) [
    | none ↦ false
    | some g ↦ g.available && is_none g.bot_roles
  ]

  -- The cache after the request for the membership, and whether it is known.
  unfoldable pub ensure_bot_membership : Option Member → ℕ → Cache P → Cache P × Bool
  unfolding lacks_membership member
  ensure_bot_membership answer id c =
      if not (lacks_membership id c) then (c, true) else elim answer [
        | none ↦ (c, false)
        | some m ↦ (record c { guilds = modify id (λ g. member g m) c.guilds }, true)
      ]

  unfoldable pub is_searchable : Search P → Text → Bool
  unfolding byte_length classify
  is_searchable s query =
      not (ltb (byte_length query) 2)
      && not (ltb 500 (byte_length query))
      && (elim (classify s.urls query) [ Input.search t ↦ true | _ ↦ false ])
      && s.node_ready

  -- The membership is asked for only for a caller in a normal voice channel.
  unfoldable pub needs_membership : ℕ → ℕ → Cache P → Bool
  unfolding caller_channel
  needs_membership id caller c = elim (get id c.guilds) [
    | none ↦ false
    | some g ↦ g.available && is_none g.bot_roles && is_ok (caller_channel g caller)
  ]

  -- The channel in which the caller may add to the queue.
  unfoldable pub admitted : Search P → ℕ → ℕ → Cache P → Option ℕ
  unfolding access
  admitted s id caller c = elim (get id c.guilds) [
    | none ↦ none
    | some g ↦
        if not g.available
          || leb s.config.limits.queue g.activity.queue_count
          || leb s.config.pending g.activity.pending
        then none
        else elim (access s.flags g id caller s.bot none) [
          | err e ↦ none
          | ok channel ↦ if is_channel g.activity.channel channel then some channel else none
        ]
  ]

  unfoldable pub cache_key : Search P → ℕ → ℕ → Text → Text
  cache_key s guild channel query =
      decimal guild ++ b':' ∷ (decimal channel ++ b':' ∷ s.lowercase query)

  -- The choices of a result, which are remembered.
  unfoldable pub keep_choices :
      ℕ → Text → Result Resolution Failure → Shared P → Shared P × List Choice
  unfolding search_choices remember
  keep_choices now key (err e) sh = (sh, [])
  keep_choices now key (ok r) sh =
      let choices : List Choice = search_choices r.tracks in
      let entry : Entry = record { key = key; at = now; choices = choices } in
      (record sh { autocomplete = remember now entry sh.autocomplete }, choices)

  -- A search, when there is a place for it.
  unfoldable pub search_now : Search P → Text → Text → Shared P → Shared P × List Choice
  unfolding resolve keep_choices
  search_now s key query sh =
      if s.second_permit
      then keep_choices s.now key (resolve s.urls s.answers s.config.limits query 10 10).1 sh
      else (sh, [])

  -- The choices for an admitted caller: a recent entry of the cache, or those of a search.
  unfoldable pub look_up : Search P → Text → Text → Shared P → Shared P × List Choice
  unfolding find_entry search_now
  look_up s key query sh = elim (find_entry key sh.autocomplete) [
    | none ↦ search_now s key query sh
    | some e ↦ if is_recent s.now e then (sh, e.choices) else search_now s key query sh
  ]

  -- From the check of the caller's access on.
  unfoldable pub choices_for : Search P → ℕ → ℕ → Text → Shared P → Shared P × List Choice
  unfolding admitted look_up cache_key
  choices_for s id caller query sh = elim (admitted s id caller sh.cache) [
    | none ↦ (sh, [])
    | some channel ↦ look_up s (cache_key s id channel query) query sh
  ]

  unfoldable pub autocomplete_choices :
      Search P → Option ℕ → Request → Shared P → Shared P × List Choice
  unfolding is_searchable needs_membership ensure_bot_membership choices_for
  autocomplete_choices s guild r sh =
      let query : Text = trim (option r (codes "request")) in
      if not (is_searchable s query) then (sh, []) else elim guild [
        | none ↦ (sh, [])
        | some id ↦
            if not (needs_membership id (user r) sh.cache)
            then choices_for s id (user r) query sh
            else if not s.first_permit
            then (sh, [])
            else let (cache, known) = ensure_bot_membership s.membership id sh.cache in
              if known
              then choices_for s id (user r) query (record sh { cache = cache })
              else (record sh { cache = cache }, [])
      ]

-- ===== src/Voice/Admission.antt =====
-- What an admission by `access` guarantees (src/voice.rs).
use raydio.Prelude.{
  ℕ, ◌<◌, true, false, Option, none, some, List, [], ◌≡◌, ◌≢◌, refl, sym, subst, arith, get,
  Option-cases, Bool-cases, ◌⊎◌, inl, inr, List-cases, ltb, leb,
}
use raydio.Prelude.Results.{ok, err, Result-cases}
use raydio.Voice.Permissions.{Bitflags, ChannelAccess, guild_voice, permissions}
use raydio.Voice.{Guild, Voice}
use raydio.Voice.Access.{
  no_such_channel, voice_changed, caller_channel, caller_error, missing_of, is_full, occupants,
  admit, access, limit_of,
}

module _ {P : Type 0} (b : Bitflags P) where
  -- The state in which the bot may play for the caller in the channel.
  pub record Admitted (g : Guild P) (guild caller bot : ℕ) (intended : Option ℕ) (channel : ℕ)
      : Type 0 where
    pub entry : Voice
    pub in_voice : get caller g.voices ≡ some entry
    pub in_channel : entry.channel ≡ channel
    pub intends : (intended ≡ none) ⊎ (intended ≡ some channel)
    pub listed : ChannelAccess P
    pub is_listed : get channel g.channels ≡ some listed
    pub normal : listed.kind ≡ guild_voice
    pub roles : List ℕ
    pub known : g.bot_roles ≡ some roles
    pub may_view :
        b.contains (permissions b guild bot g.owner roles g.roles listed) b.view_channel ≡ true
    pub may_connect :
        b.contains (permissions b guild bot g.owner roles g.roles listed) b.connect ≡ true
    pub may_speak : b.contains (permissions b guild bot g.owner roles g.roles listed) b.speak ≡ true
    pub room :
        (limit_of listed ≡ 0)
        ⊎ ((occupants g channel < limit_of listed)
            ⊎ ((w : Voice) × (get bot g.voices ≡ some w) × (w.channel ≡ channel)))

  missing_of-nil :
      (p : P)
      → missing_of b p ≡ []
      → (b.contains p b.view_channel ≡ true)
        × (b.contains p b.connect ≡ true)
        × (b.contains p b.speak ≡ true)
  unfolding missing_of
  missing_of-nil p h = ground arith

  is_full-room :
      (g : Guild P) (bot channel : ℕ) (c : ChannelAccess P)
      → is_full g bot channel c ≡ false
      → (limit_of c ≡ 0)
        ⊎ ((occupants g channel < limit_of c)
            ⊎ ((w : Voice) × (get bot g.voices ≡ some w) × (w.channel ≡ channel)))
  unfolding is_full
  is_full-room g bot channel c h = elim (Bool-cases (ltb 0 (limit_of c))) [
    | inr e ↦ inl (ground arith)
    | inl e ↦ elim (Bool-cases (leb (limit_of c) (occupants g channel))) [
      | inr k ↦ inr (inl (ground arith))
      | inl k ↦ elim (Option-cases (get bot g.voices)) [
        | inl n ↦ absurd (ground arith)
        | inr (w, n) ↦ inr (inr (w, n, ground arith))
      ]
    ]
  ]

  caller_channel-ok :
      (g : Guild P) (caller channel : ℕ)
      → caller_channel g caller ≡ ok channel
      → (v : Voice) × (c : ChannelAccess P) × (get caller g.voices ≡ some v)
        × (v.channel ≡ channel)
        × (get channel g.channels ≡ some c)
        × (c.kind ≡ guild_voice)
  unfolding caller_channel
  caller_channel-ok g caller channel h = elim (Option-cases (get caller g.voices)) [
    | inl e ↦ absurd (ground arith)
    | inr (v, e) ↦ elim (Option-cases (get v.channel g.channels)) [
      | inl n ↦ absurd (ground arith)
      | inr (c, n) ↦ (v, c, e, ground arith, ground arith, ground arith)
    ]
  ]

  admit-ok :
      (g : Guild P) (guild bot channel chosen : ℕ) (roles : List ℕ) (c : ChannelAccess P)
      → get channel g.channels ≡ some c
      → admit b g guild bot channel roles ≡ ok chosen
      → (chosen ≡ channel)
        × (missing_of b (permissions b guild bot g.owner roles g.roles c) ≡ [])
        × (is_full g bot channel c ≡ false)
  unfolding admit
  admit-ok g guild bot channel chosen roles c e h =
      elim (List-cases (missing_of b (permissions b guild bot g.owner roles g.roles c))) [
        | inl n ↦ (ground arith, n, ground arith)
        | inr (m, ms, n) ↦ absurd (ground arith)
      ]

  intended-cases :
      (g : Guild P) (guild caller bot channel ch : ℕ) (intended : Option ℕ)
      → caller_channel g caller ≡ ok ch
      → access b g guild caller bot intended ≡ ok channel
      → (intended ≡ none) ⊎ (intended ≡ some ch)
  unfolding access
  intended-cases g guild caller bot channel ch none p h = inl refl
  intended-cases g guild caller bot channel ch (some id) p h = inr (ground arith)

  -- A call is admitted to a channel only if the caller is in it, it is the one intended, it is a
  -- normal voice channel, the bot's roles are known and grant it View Channel, Connect and Speak
  -- there, and it has no limit, or room, or the bot in it already.
  pub access-Admitted :
      (g : Guild P) (guild caller bot : ℕ) (intended : Option ℕ) (channel : ℕ)
      → access b g guild caller bot intended ≡ ok channel
      → Admitted g guild caller bot intended channel
  unfolding access
  access-Admitted g guild caller bot intended channel h =
      elim (Result-cases (caller_channel g caller)) [
        | inr (e, p) ↦ absurd (ground arith)
        | inl (ch, p) ↦ elim (Option-cases g.bot_roles) [
          | inl n ↦ absurd (ground arith)
          | inr (rs, n) ↦
              let (v, c, in_voice, in_channel, is_listed, normal) =
                caller_channel-ok g caller ch p in
              let (same, granted, room) =
                admit-ok g guild bot ch channel rs c is_listed (ground arith) in
              let (view, connect, speak) =
                missing_of-nil (permissions b guild bot g.owner rs g.roles c) granted in
              subst (Admitted g guild caller bot intended) (sym same) (record {
                entry = v;
                in_voice = in_voice;
                in_channel = in_channel;
                intends = intended-cases g guild caller bot channel ch intended p h;
                listed = c;
                is_listed = is_listed;
                normal = normal;
                roles = rs;
                known = n;
                may_view = view;
                may_connect = connect;
                may_speak = speak;
                room = is_full-room g bot ch c room;
              })
        ]
      ]

  -- Whatever the cache holds, an admission never meets the panic of the map index.
  pub access-listed :
      (g : Guild P) (guild caller bot : ℕ) (intended : Option ℕ)
      → access b g guild caller bot intended ≢ err no_such_channel
  unfolding access admit caller_channel caller_error
  access-listed g guild caller bot intended h = elim (Option-cases (get caller g.voices)) [
    | inl e ↦ ground arith
    | inr (v, e) ↦ elim (Option-cases (get v.channel g.channels)) [
      | inl n ↦ ground arith
      | inr (c, n) ↦ elim (Option-cases g.bot_roles) [
        | inl r ↦ ground arith
        | inr (rs, r) ↦ ground arith
      ]
    ]
  ]

  -- A request that was meant for a channel that its caller has left is refused with the message
  -- that the channel changed.
  pub access_changed :
      (g : Guild P) (guild caller bot wanted : ℕ)
      → caller_channel g caller ≢ ok wanted
      → access b g guild caller bot (some wanted) ≡ err voice_changed
  unfolding access caller_error
  access_changed g guild caller bot wanted h = elim (Result-cases (caller_channel g caller)) [
    | inl (ch, p) ↦ ground arith
    | inr (e, p) ↦ ground arith
  ]

-- ===== src/Config/Relay/Hub.antt =====
-- A hub's settings once they are verified.
use talkeqidea.Common.{
  ℕ, ◌≡◌, ◌⊎◌, refl, Bool, true, false, ◌||◌, Bool-cases, inl, inr, [], arith, Text, codes,
  is_empty, text_eq, ok, >>=-eq-ok, refuse_if-eq-ok, ok-injective, ℤ, pos, lt_nat,
}
use talkeqidea.Golang.Strings.{Unicode, LowersAscii}
use talkeqidea.Sanitize.{server_key}
use talkeqidea.Relay.Event.{origin_discord}
use talkeqidea.Config.Settings.{Float, HubConfig}
use talkeqidea.Config.Relay.{
  default_to, at_least_or, verify_web, verify_tls, with_defaults, verify_channels, verify_hub,
  self_signed, lets_encrypt, tls_file, tls_none,
}
use talkeqidea.Config.Relay.Channels.{AreUsable, verify_channels-AreUsable}

module _ (f : Float) where
  -- What the TLS mode asks for is there.
  abbrev pub HasTls : HubConfig f.F → Type 0
  HasTls c =
      ((text_eq c.tls_mode self_signed ≡ true)
        × (is_empty c.tls_cert_path ≡ false)
        × (is_empty c.tls_key_path ≡ false))
      ⊎ ((text_eq c.tls_mode tls_file ≡ true)
          × (is_empty c.tls_cert_path ≡ false)
          × (is_empty c.tls_key_path ≡ false))
      ⊎ ((text_eq c.tls_mode lets_encrypt ≡ true) × (is_empty c.tls_domain ≡ false))
      ⊎ (text_eq c.tls_mode tls_none ≡ true)

  pub record IsReady (u : Unicode) (parses : Text → Bool) (c : HubConfig f.F) : Type 0 where
    pub listens : is_empty c.listen ≡ false
    pub advertised : is_empty c.advertise_addr ≡ false
    pub heartbeat : lt_nat c.heartbeat_secs 5 ≡ false
    pub queue : lt_nat c.queue_size 16 ≡ false
    pub local_key : text_eq c.local_server_key origin_discord ≡ false
    pub secured : HasTls c
    pub usable : AreUsable u parses [] c.channels

  -- What the switch over the TLS mode leaves alone.
  record TlsOnly (c d : HubConfig f.F) : Type 0 where
    same_listen : d.listen ≡ c.listen
    same_advertised : d.advertise_addr ≡ c.advertise_addr
    same_heartbeat : d.heartbeat_secs ≡ c.heartbeat_secs
    same_queue : d.queue_size ≡ c.queue_size
    same_key : d.local_server_key ≡ c.local_server_key
    has_tls : HasTls d

  tls_only :
      (c d : HubConfig f.F)
      → d.listen ≡ c.listen
      → d.advertise_addr ≡ c.advertise_addr
      → d.heartbeat_secs ≡ c.heartbeat_secs
      → d.queue_size ≡ c.queue_size
      → d.local_server_key ≡ c.local_server_key
      → HasTls d
      → TlsOnly c d
  tls_only c d a b e g k t = record {
    same_listen = a;
    same_advertised = b;
    same_heartbeat = e;
    same_queue = g;
    same_key = k;
    has_tls = t;
  }

  default_to_present : (d s : Text) → is_empty d ≡ false → is_empty (default_to d s) ≡ false
  default_to_present d s h = ground arith

  verify_tls-TlsOnly : (c d : HubConfig f.F) → verify_tls c ≡ ok d → TlsOnly c d
  unfolding verify_tls
  verify_tls-TlsOnly c d h = elim (Bool-cases (text_eq c.tls_mode self_signed)) [
    | inl signed ↦
        let cert = default_to (codes "modern-eq-chat-cert.pem") c.tls_cert_path in
        let key = default_to (codes "modern-eq-chat-key.pem") c.tls_key_path in
        let made : record c { tls_cert_path = cert; tls_key_path = key } ≡ d =
          ok-injective (rw signed at h) in
        rw (← made) (
          tls_only c (record c { tls_cert_path = cert; tls_key_path = key }) refl refl refl refl
            refl
            (inl (
              signed,
              default_to_present (codes "modern-eq-chat-cert.pem") c.tls_cert_path refl,
              default_to_present (codes "modern-eq-chat-key.pem") c.tls_key_path refl,
            )))
    | inr unsigned ↦ elim (Bool-cases (text_eq c.tls_mode tls_file)) [
      | inl file ↦ elim (Bool-cases (is_empty c.tls_cert_path || is_empty c.tls_key_path)) [
        | inl missing ↦ absurd (cc (rw (unsigned, file, missing) at h))
        | inr there ↦
            rw (← ok-injective (rw (unsigned, file, there) at h))
              (tls_only c c refl refl refl refl refl (inr (inl (file, ground arith, ground arith))))
      ]
      | inr no_file ↦ elim (Bool-cases (text_eq c.tls_mode lets_encrypt)) [
        | inl lets ↦ elim (Bool-cases (is_empty c.tls_domain)) [
          | inl missing ↦ absurd (cc (rw (unsigned, no_file, lets, missing) at h))
          | inr there ↦
              rw (← ok-injective (rw (unsigned, no_file, lets, there) at h))
                (tls_only c c refl refl refl refl refl (inr (inr (inl (lets, there)))))
        ]
        | inr no_lets ↦ elim (Bool-cases (text_eq c.tls_mode tls_none)) [
          | inl plain ↦
              rw (← ok-injective (rw (unsigned, no_file, no_lets, plain) at h))
                (tls_only c c refl refl refl refl refl (inr (inr (inr plain))))
          | inr unknown ↦ absurd (cc (rw (unsigned, no_file, no_lets, unknown) at h))
        ]
      ]
    ]
  ]

  at_least_or_lem :
      (least d : ℕ) (n : ℤ)
      → lt_nat (pos d) least ≡ false
      → lt_nat (at_least_or least d n) least ≡ false
  at_least_or_lem least d n h = elim (Bool-cases (lt_nat n least)) [
    | inl low ↦ rw low h
    | inr fine ↦ rw fine fine
  ]

  -- The settings of a hub that are accepted name an address to listen on and one to dial, have a
  -- heartbeat of five seconds or more, hold at least 16 frames for an agent, keep the key of Discord
  -- free, have what their TLS mode asks for, and have usable channels, where the library lowers ASCII
  -- letters as documented.
  pub verify_hub-IsReady :
      (u : Unicode) (parses : Text → Bool)
      → LowersAscii u
      → (c d : HubConfig f.F) → verify_hub u parses f c ≡ ok d
      → IsReady u parses d
  unfolding verify_hub with_defaults
  verify_hub-IsReady u parses lowers c d h =
      let c1 = with_defaults f c in
      let key = server_key u c1.local_server_key in
      let (web, h1, _) = >>=-eq-ok _ (verify_web c1.web) h in
      let (unreserved, h2) = refuse_if-eq-ok (text_eq key origin_discord) _ _ h1 in
      let (c2, h3, tls) = >>=-eq-ok _ (verify_tls _) h2 in
      let (channels, h4, loaded) = >>=-eq-ok _ (verify_channels u parses [] c2.channels) h3 in
      let same : record c2 { channels = channels } ≡ d = ok-injective h4 in
      let t = verify_tls-TlsOnly _ c2 tls in
      let listens = default_to_present (codes ":34197") c.listen refl in
      rw (← same) (record {
        listens = rw t.same_listen listens;
        advertised = rw t.same_advertised (default_to_present c1.listen c1.advertise_addr listens);
        heartbeat = rw t.same_heartbeat (at_least_or_lem 5 30 c.heartbeat_secs refl);
        queue = rw t.same_queue (at_least_or_lem 16 256 c.queue_size refl);
        local_key = rw t.same_key unreserved;
        secured = t.has_tls;
        usable = verify_channels-AreUsable u parses lowers [] c2.channels channels loaded;
      })

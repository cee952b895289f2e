-- ===== src/Upstream/DnsClient/Sends.antt =====
-- The order of the attempts of `DnsClient::send_to`, and the connections that it keeps.
use load_ants.Prelude.{
  sym, ◌≡◌, refl, Bool, true, false, ◌⊎◌, inl, inr, List, [], ◌∷◌, Option, none, some, last,
  Bool-cases, if◌then◌else◌,
}
use load_ants.Errors.{Result, ok, err, AppError, Result-cases}
use load_ants.Proto.{Proto}
use load_ants.Proto.Wire.{Wire}
use load_ants.Upstream.DnsClient.{
  connected, with_conn, Connector, DnsClient, udp, tcp, DnsClientAttempt, DnsClientResponse,
  DnsClientSendError, connect, send_with_conn, send_udp, send_tcp, send_to, attempted, after_udp,
  over_tcp, insert_conn, send_over,
}

-- One attempt over TCP, or one over UDP that another over TCP follows only if it was truncated.
abbrev pub Attempts : Bool → List DnsClientAttempt → Type 0
Attempts true l = (t : Bool) × (l ≡ record { transport = tcp; truncated = t } ∷ [])
Attempts false l =
    ((t : Bool) × (l ≡ record { transport = udp; truncated = t } ∷ []))
    ⊎ ((t : Bool) × (l
          ≡ record { transport = udp; truncated = true }
            ∷ record { transport = tcp; truncated = t }
            ∷ []))

module _ (D : Proto) (W : Wire D) (N : Connector D) where
  open D use {Message, truncated}
  open N use {SocketAddr, addr_eq, Connection}

  -- The last attempt gave the message, and a truncated message did not come over UDP.
  abbrev pub Gave : DnsClientResponse Message → Type 0
  Gave r =
      (a : DnsClientAttempt) × (last r.attempts ≡ some a)
      × (a.truncated ≡ truncated r.message)
      × ((a.transport ≡ tcp) ⊎ (truncated r.message ≡ false))

  abbrev pub Sends : Bool → Result (DnsClientResponse Message) DnsClientSendError → Type 0
  Sends prefer_tcp (ok r) = Attempts prefer_tcp r.attempts × Gave r
  Sends prefer_tcp (err e) = Attempts prefer_tcp e.attempts

  only_tcp : (r : Result Message AppError) → Sends true (attempted D W N tcp [] r)
  only_tcp (ok m) = ((truncated m, refl), (_, refl, refl, inl refl))
  only_tcp (err e) = (false, refl)

  then_tcp :
      (r : Result Message AppError)
      → Sends false (attempted D W N tcp (record { transport = udp; truncated = true } ∷ []) r)
  then_tcp (ok m) = (inr (truncated m, refl), (_, refl, refl, inl refl))
  then_tcp (err e) = inr (false, refl)

  after_udp-Sends :
      (c : DnsClient D W N) (addr : SocketAddr) (message : Message) (r : Result Message AppError)
      → Sends false (after_udp D W N c addr message (attempted D W N udp [] r)).0
  after_udp-Sends c addr message (err e) = inl (false, refl)
  after_udp-Sends c addr message (ok m) = elim (Bool-cases (truncated m)) [
    | inl e ↦ rw e (then_tcp (send_tcp D W N c addr message).0)
    | inr e ↦ rw e (inl (false, refl), (_, refl, sym e, inr e))
  ]

  by_transport-Sends :
      (prefer : Bool) (c : DnsClient D W N) (addr : SocketAddr) (message : Message)
      → Sends prefer
          (if prefer
            then over_tcp D W N c addr message []
            else after_udp D W N c addr message
                (attempted D W N udp [] (send_udp D W N c addr message))).0
  by_transport-Sends true c addr message = only_tcp (send_tcp D W N c addr message).0
  by_transport-Sends false c addr message =
      after_udp-Sends c addr message (send_udp D W N c addr message)

  -- With `prefer_tcp` there is one attempt, over TCP. Without it there is one over UDP, which another
  -- over TCP follows only if the answer was truncated. An answer is that of the last attempt, and a
  -- truncated one never comes over UDP.
  pub send_to-Sends :
      (c : DnsClient D W N) (addr : SocketAddr) (message : Message)
      → Sends c.config.prefer_tcp (send_to D W N c addr message).0
  unfolding send_to
  send_to-Sends c addr message = by_transport-Sends c.config.prefer_tcp c addr message

  -- The connection to the address: the one that gave the answer is kept, and after an error none is
  -- left, unless connections are not to be dropped.
  abbrev pub Tracks :
      DnsClient D W N → SocketAddr → Message → Result Message AppError → DnsClient D W N → Type 0
  Tracks c addr message (ok response) d =
      (conn : Connection) × (d.tcp_conns addr ≡ some conn)
      × (send_with_conn D W N conn message ≡ ok response)
  Tracks c addr message (err e) d = (c.config.tcp_reconnect ≡ false) ⊎ (d.tcp_conns addr ≡ none)

  module _ (self : (addr : SocketAddr) → addr_eq addr addr ≡ true) where
    send_over-Tracks :
        (c : DnsClient D W N) (addr : SocketAddr) (message : Message) (conn : Connection)
        → c.tcp_conns addr ≡ some conn
        → Tracks c addr message
            (send_over D W N c addr message conn).0
            (send_over D W N c addr message conn).1
    send_over-Tracks c addr message conn h =
        elim (Result-cases (send_with_conn D W N conn message)) [
          | inl (response, e) ↦ rw e (conn, h, e)
          | inr (x, e) ↦ rw e (elim (Bool-cases c.config.tcp_reconnect) [
            | inl t ↦ rw t (inr (rw (self addr) refl))
            | inr t ↦ inl t
          ])
        ]

    insert_conn_self :
        (c : DnsClient D W N) (addr : SocketAddr) (conn : Connection)
        → (insert_conn D W N addr conn c).tcp_conns addr ≡ some conn
    insert_conn_self c addr conn = rw (self addr) refl

    connected-Tracks :
        (c : DnsClient D W N) (addr : SocketAddr) (message : Message)
        (r : Result Connection AppError)
        → c.tcp_conns addr ≡ none
        → Tracks c addr message
            (connected D W N c addr message r).0
            (connected D W N c addr message r).1
    connected-Tracks c addr message (err x) h = inr h
    connected-Tracks c addr message (ok conn) h =
        send_over-Tracks (insert_conn D W N addr conn c) addr message conn
          (insert_conn_self c addr conn)

    with_conn-Tracks :
        (c : DnsClient D W N) (addr : SocketAddr) (message : Message) (o : Option Connection)
        → c.tcp_conns addr ≡ o
        → Tracks c addr message
            (with_conn D W N c addr message o).0
            (with_conn D W N c addr message o).1
    with_conn-Tracks c addr message (some conn) h = send_over-Tracks c addr message conn h
    with_conn-Tracks c addr message none h =
        connected-Tracks c addr message (connect D W N c addr tcp) h

    -- A request over TCP keeps the connection that gave the answer for its address; after an error
    -- none is left there, unless `tcp_reconnect` is off.
    pub send_tcp-Tracks :
        (c : DnsClient D W N) (addr : SocketAddr) (message : Message)
        → Tracks c addr message (send_tcp D W N c addr message).0 (send_tcp D W N c addr message).1
    unfolding send_tcp
    send_tcp-Tracks c addr message = with_conn-Tracks c addr message (c.tcp_conns addr) refl

  send_over-others :
      (c d : DnsClient D W N) (addr b : SocketAddr) (message : Message) (conn : Connection)
      → d.tcp_conns b ≡ c.tcp_conns b
      → addr_eq addr b ≡ false
      → (send_over D W N d addr message conn).1.tcp_conns b ≡ c.tcp_conns b
  send_over-others c d addr b message conn same h =
      elim (Result-cases (send_with_conn D W N conn message)) [
        | inl (response, e) ↦ rw e same
        | inr (x, e) ↦ rw e (elim (Bool-cases d.config.tcp_reconnect) [
          | inl t ↦ rw t (rw h same)
          | inr t ↦ rw t same
        ])
      ]

  with_conn-others :
      (c : DnsClient D W N) (addr b : SocketAddr) (message : Message) (o : Option Connection)
      → addr_eq addr b ≡ false
      → (with_conn D W N c addr message o).1.tcp_conns b ≡ c.tcp_conns b
  with_conn-others c addr b message (some conn) h = send_over-others c c addr b message conn refl h
  with_conn-others c addr b message none h =
      elim (connect D W N c addr tcp)
        as (λ r. (connected D W N c addr message r).1.tcp_conns b ≡ c.tcp_conns b) [
          | err e ↦ refl
          | ok conn ↦
              send_over-others c (insert_conn D W N addr conn c) addr b message conn (rw h refl) h
        ]

  -- A request over TCP leaves the connections to other addresses as they were.
  pub send_tcp-others :
      (c : DnsClient D W N) (addr b : SocketAddr) (message : Message)
      → addr_eq addr b ≡ false
      → (send_tcp D W N c addr message).1.tcp_conns b ≡ c.tcp_conns b
  unfolding send_tcp
  send_tcp-others c addr b message h = with_conn-others c addr b message (c.tcp_conns addr) h

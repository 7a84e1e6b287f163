-- ===== src/Wiring.antt =====
-- How the programs find one another: the addresses that tcpdc.c, tcpds.c, ftpc.c, ftps.c,
-- timerprocess.c and cbuffer.c bind and send to.
mod Tests
use project.Base.{
  ℕ, ◌+◌, ◌≡◌, ◌↔◌, ◌⊎◌, refl, sym, ap, ◌∙◌, Bool, true, false, Option, none, some, List, [], ◌∷◌,
  ◌++◌, inl, inr, get_elem?, take, take_front, replicate, zero, suc, length, arith, subst,
  Bool-cases,
}
use project.TcpApi.{
  Kernel, Api, inet, local_host, any_address, unused, socket, bind, set_send_address,
}
use project.TcpApi.Calls.{
  open-Leaves, bind-Leaves, bind_open-Leaves, bound_to, Reaches, Hears, ip_of, port_of,
}
use project.Sender.{make_remote}
use project.Outcome.{Outcome, ok, exited, ◌>>=◌, Leaves, Leaves-ok}
use project.TimerClient.{timer_address}
use project.Tcpdc.Setup as Tcpdc
use project.Tcpds.Setup as Tcpds
use project.Ftpc.Setup as Ftpc
use project.Ftps.Setup as Ftps
use project.TimerProcess.Setup as TimerProcess

abbrev place : ℕ → List (ℕ × List ℕ) → Option (ℕ × List ℕ)
place i l = get_elem? l i

-- tcpdc with its three sockets.
abbrev TcpdcUp : Api → Tcpdc.Connection × Api → Type 0
TcpdcUp a (c, a') =
    (t : ℕ) × (c.timer_sockfd ≡ some t)
    × (c.sendhost ≡ inet 3000 local_host)
    × (a'.bound
        ≡ ((a.bound ++ ((c.host_sockfd, inet 5000 local_host) ∷ []))
            ++ ((c.remote_sockfd, inet 6000 local_host) ∷ []))
          ++ ((t, inet 6520 local_host) ∷ []))

tcpdc-Leaves : (k : Kernel) (a : Api) → Leaves (TcpdcUp a) (Tcpdc.create_connection k a)
unfolding Tcpdc.create_connection socket
tcpdc-Leaves k a =
    let a3 = record a { opened = a.opened + 1 + 1 + 1 } in
    open-Leaves (TcpdcUp a) (k.socket a.opened, a3) _
      λ h p.
        open-Leaves (TcpdcUp a) (k.socket (a.opened + 1), a3) _
          λ r q.
            let a4 = bound_to h (inet 5000 local_host) a3 in
            let a5 = bound_to r (inet 6000 local_host) a4 in
            bind_open-Leaves (TcpdcUp a) k h (inet 5000 local_host) a3 _ (
              bind_open-Leaves (TcpdcUp a) k r (inet 6000 local_host) a4 _ (
                bind-Leaves (TcpdcUp a) k (k.socket (a.opened + 1 + 1)) (inet 6520 local_host) a5 _
                  λ t v. (t, v, refl, refl)))

-- tcpds with its two.
abbrev TcpdsUp : List ℕ → Api → Tcpds.Connection × Api → Type 0
TcpdsUp ip a (c, a') =
    (c.ftpsaddr ≡ inet 2000 local_host)
    × (c.trolladdr ≡ inet 4000 local_host)
    × (c.pack_remote ≡ Tcpds.pack_remote_for ip)
    × (a'.bound
        ≡ (a.bound ++ ((c.host_sockfd, inet 5050 any_address) ∷ []))
          ++ ((c.remote_sockfd, inet 6050 any_address) ∷ []))

tcpds-Leaves :
    (k : Kernel) (ip : List ℕ) (a : Api) → Leaves (TcpdsUp ip a) (Tcpds.create_connection k ip a)
unfolding Tcpds.create_connection socket
tcpds-Leaves k ip a =
    let a1 = record a { opened = a.opened + 1 } in
    let Q = TcpdsUp ip a in
    open-Leaves Q (k.socket a.opened, a1) _
      λ h p.
        let a2 = bound_to h (inet 5050 any_address) a1 in
        bind_open-Leaves Q k h (inet 5050 any_address) a1 _ (
          open-Leaves Q (k.socket (a.opened + 1), record a2 { opened = a.opened + 1 + 1 }) _
            λ r q.
              bind_open-Leaves Q k r (inet 6050 any_address)
                (record a2 { opened = a.opened + 1 + 1 }) _ (refl, refl, refl, refl))

-- ftpc: the socket that it sends from, the one it listens to, and where it sends to.
abbrev FtpcUp : List ℕ → Api → ℕ × Option ℕ × Api → Type 0
FtpcUp stale a (fd, recvfd, a') =
    (n : ℕ) × (recvfd ≡ some n)
    × (a'.bound ≡ a.bound ++ ((n, inet 3000 stale) ∷ []))
    × (a'.dest_addr ≡ inet 5000 local_host)

ftpc-Leaves :
    (k : Kernel) (stale : List ℕ) (a : Api)
    → Leaves (FtpcUp stale a) (Ftpc.create_connection k stale a)
unfolding Ftpc.create_connection socket set_send_address
ftpc-Leaves k stale a =
    let a2 = record a { opened = a.opened + 1 + 1 } in
    open-Leaves (FtpcUp stale a) (k.socket a.opened, a2) _
      λ s p.
        bind-Leaves (FtpcUp stale a) k (k.socket (a.opened + 1)) (inet 3000 stale) a2 _
          λ n q. (n, q, refl, refl)

-- ftps, if its socket can be bound, and the timer process.
abbrev FtpsUp : Kernel → Api → ℕ × Api → Type 0
FtpsUp k a (fd, a') =
    (k.bind fd (inet 2000 any_address) ≡ true
      → a'.bound ≡ a.bound ++ ((fd, inet 2000 any_address) ∷ []))
    × (a'.dest_addr ≡ inet 5050 local_host)

ftps-Leaves : (k : Kernel) (a : Api) → Leaves (FtpsUp k a) (Ftps.open_socket k a)
unfolding Ftps.open_socket socket bind set_send_address
ftps-Leaves k a =
    open-Leaves (FtpsUp k a) (k.socket a.opened, record a { opened = a.opened + 1 }) _
      λ s p. elim (Bool-cases (k.bind s (inet 2000 any_address))) [
        | inl granted ↦ rw granted (λ e. refl, refl)
        | inr failed ↦ rw failed (λ e. absurd (ground arith), refl)
      ]

abbrev TimerUp : Api → ℕ × Api → Type 0
TimerUp a (fd, a') =
    (a'.bound ≡ a.bound ++ ((fd, inet 3132 local_host) ∷ []))
    × (a'.dest_addr ≡ inet 6520 local_host)

timer-Leaves : (k : Kernel) (a : Api) → Leaves (TimerUp a) (TimerProcess.open_socket k a)
unfolding TimerProcess.open_socket socket set_send_address
timer-Leaves k a =
    open-Leaves (TimerUp a) (k.socket a.opened, record a { opened = a.opened + 1 }) _
      λ s p.
        bind_open-Leaves (TimerUp a) k s (inet 3132 local_host) (record a { opened = a.opened + 1 })
          _ (refl, refl)

-- If the five programs come up, each with a kernel of its own, and the descriptor that ftps has got can
-- be bound to its address, then the blocks of ftpc and the requests of ftps reach the sockets that
-- tcpdc and tcpds hold for them, the answers of tcpds reach ftps, the packets of tcpdc reach tcpds at
-- whichever address of its machine their header names, with port 6050, and whatever address tcpds was
-- given, and the requests and notices of timers reach the timer process and tcpdc.
pub connections-Hears :
    (kc kd kp ks kf : Kernel) (server_ip ip stale : List ℕ) (d : Tcpdc.Connection) (da : Api)
    (p : Tcpds.Connection) (pa : Api) (c : ℕ × Option ℕ × Api) (s : ℕ × Api) (t : ℕ × Api)
    → kf.bind s.0 (inet 2000 any_address) ≡ true
    → Ftpc.create_connection kc stale unused ≡ ok c
    → Tcpdc.create_connection kd unused ≡ ok (d, da)
    → Tcpds.create_connection kp ip unused ≡ ok (p, pa)
    → Ftps.open_socket kf unused ≡ ok s
    → TimerProcess.open_socket ks unused ≡ ok t
    → Hears da d.host_sockfd c.2.dest_addr
      × Hears pa p.remote_sockfd (make_remote server_ip)
      × Hears pa p.host_sockfd s.1.dest_addr
      × Hears s.1 s.0 p.ftpsaddr
      × Hears t.1 t.0 timer_address
      × ((n : ℕ) × (d.timer_sockfd ≡ some n) × Hears da n t.1.dest_addr)
connections-Hears kc kd kp ks kf server_ip ip stale d da p pa c s t granted ec ed ep es et =
    let (_, _, _, c_dest) = Leaves-ok (FtpcUp stale unused) _ c ec (ftpc-Leaves kc stale unused) in
    let (n, dn, _, d_bound) = Leaves-ok (TcpdcUp unused) _ (d, da) ed (tcpdc-Leaves kd unused) in
    let (p_ftps, _, _, p_bound) =
      Leaves-ok (TcpdsUp ip unused) _ (p, pa) ep (tcpds-Leaves kp ip unused) in
    let (s_up, s_dest) = Leaves-ok (FtpsUp kf unused) _ s es (ftps-Leaves kf unused) in
    let s_bound = s_up granted in
    let (t_bound, t_dest) = Leaves-ok (TimerUp unused) _ t et (timer-Leaves ks unused) in
    (
      (0, inet 5000 local_host, ap (place 0) d_bound, rw c_dest (refl, inr refl)),
      (1, inet 6050 any_address, ap (place 1) p_bound, (refl, inl refl)),
      (0, inet 5050 any_address, ap (place 0) p_bound, rw s_dest (refl, inl refl)),
      (
        0,
        inet 2000 any_address,
        ap (place 0) s_bound,
        subst (λ (x : List ℕ). Reaches x (inet 2000 any_address)) (sym p_ftps) (refl, inl refl),
      ),
      (0, inet 3132 local_host, ap (place 0) t_bound, (refl, inr refl)),
      (n, dn, (2, inet 6520 local_host, ap (place 2) d_bound, rw t_dest (refl, inr refl))),
    )

-- Of the three addresses of tcpdc only one has the port for acknowledgements.
abbrev three : ℕ → ℕ → ℕ → List (ℕ × List ℕ)
three h r t =
    (h, inet 5000 local_host) ∷ ((r, inet 6000 local_host) ∷ ((t, inet 6520 local_host) ∷ []))

ack_entry :
    (h r t fd i : ℕ) (addr : List ℕ)
    → get_elem? (three h r t) i ≡ some (fd, addr)
    → port_of addr ≡ port_of (inet 6000 local_host)
    → addr ≡ inet 6000 local_host
ack_entry h r t fd zero addr e port = cc
ack_entry h r t fd (suc zero) addr e port = cc
ack_entry h r t fd (suc (suc zero)) addr e port = cc
ack_entry h r t fd (suc (suc (suc i))) addr e port = cc

-- If tcpdc and tcpds come up, tcpds having been given the address `ip`, then an acknowledgement of
-- tcpds reaches the socket that tcpdc holds for it exactly if `ip` is 127.0.0.1: the socket is bound
-- to that address only.
pub acks-Hears :
    (kd kp : Kernel) (ip : List ℕ) (d : Tcpdc.Connection) (da : Api) (p : Tcpds.Connection)
    (pa : Api)
    → length ip ≡ 4
    → Tcpdc.create_connection kd unused ≡ ok (d, da)
    → Tcpds.create_connection kp ip unused ≡ ok (p, pa)
    → Hears da d.remote_sockfd p.pack_remote ↔ (ip ≡ local_host)
acks-Hears kd kp ip d da p pa four ed ep = (away, back)
  where
    up : TcpdcUp unused (d, da)
    up = Leaves-ok (TcpdcUp unused) _ (d, da) ed (tcpdc-Leaves kd unused)

    bound_here : da.bound ≡ three d.host_sockfd d.remote_sockfd up.0
    bound_here = up.3

    remote : p.pack_remote ≡ Tcpds.pack_remote_for ip
    remote = (Leaves-ok (TcpdsUp ip unused) _ (p, pa) ep (tcpds-Leaves kp ip unused)).2

    whole : take 4 (ip ++ replicate 8 0) ≡ ip
    whole = take_front 4 ip (replicate 8 0) four

    away : Hears da d.remote_sockfd p.pack_remote → ip ≡ local_host
    away (i, addr, e, (port, which)) =
        let at : addr ≡ inet 6000 local_host =
          ack_entry d.host_sockfd d.remote_sockfd up.0 d.remote_sockfd i addr
            (sym (ap (place i) bound_here) ∙ e) (sym port ∙ ap port_of remote) in
        elim which [
          | inl any ↦ cc
          | inr one ↦ sym whole ∙ sym (ap ip_of remote) ∙ one ∙ ap ip_of at
        ]

    back : ip ≡ local_host → Hears da d.remote_sockfd p.pack_remote
    back here = (
      1,
      inet 6000 local_host,
      ap (place 1) bound_here,
      (ap port_of remote, inr (ap ip_of remote ∙ whole ∙ here)),
    )

-- ===== src/Tcp/Admission.antt =====
-- Who `handleConn` of go/adapter/tcp/tcp.go lets in, and that its loop has enough fuel.
use go_stream.Prelude.{
  Bool-cases, ℕ, zero, suc, ◌-◌, ◌<◌, Bool, true, false, not, List, some, Text, length, drop, take,
  if◌then◌else◌, if_cases, ◌≡◌, ◌⊎◌, inl, inr, refl, arith, length-drop, ltb, leb, ◌&&◌,
}
use go_stream.Errors.{Error, handshake_timeout, conn_error, ok, err}
use go_stream.Wire.{
  Frame, Conn, Read, ReadEnd, silent, closed, broken, done, failed, waiting, read_tcp_frame,
  read_sized, read_payload, split_payload, cut_short, from_be32, u32,
}
use go_stream.Peer.{Func}
use go_stream.Auth.{AuthResult}
use go_stream.Hub.{World, update}
use go_stream.Hub.Members.{Done}
use go_stream.Tcp.{
  conn_peer, join, max_handshake_frame_size, max_frame_size, handle_conn, with_frame, serve_frames,
  unless_failed, dispatch_tcp_frame, returned, blocked,
}

-- With an authenticator, a connection either leaves the whole hub as it was, or its first frame was
-- read within 4096 bytes and the authenticator accepted it.
pub handle_conn-admission :
    (w : World) (authenticate : Frame → AuthResult) (timeout peer : ℕ) (uuid : Text) (hook : Func)
    (conn : Conn)
    → (handle_conn w (some authenticate) timeout peer uuid hook conn ≡ w)
      ⊎ ((channel : Text) × (frame : Frame) × (rest : Conn) × (read_tcp_frame conn timeout
              max_handshake_frame_size
            ≡ (done (channel, frame), rest))
          × ((authenticate frame).valid ≡ true))
unfolding handle_conn
handle_conn-admission w authenticate timeout peer uuid hook conn =
    after_read (read_tcp_frame conn timeout max_handshake_frame_size) refl
  where
    further : Text → Frame → Conn → World
    further channel frame rest =
        let made = record w {
          heap = update w.heap peer (conn_peer uuid (authenticate frame) hook);
        } in
        if not (authenticate frame).valid
        then w
        else if not made.running
        then made
        else join (some authenticate) made peer channel frame rest

    accepted :
        (channel : Text) (frame : Frame) (rest : Conn)
        → (further channel frame rest ≡ w) ⊎ ((authenticate frame).valid ≡ true)
    accepted channel frame rest = elim (Bool-cases (authenticate frame).valid) [
      | inl y ↦ inr y
      | inr n ↦ inl (
          if_cases (λ u. u ≡ w) (not (authenticate frame).valid) (λ e. refl)
            (λ e. absurd (ground arith)))
    ]

    after_read :
        (r : Read (Text × Frame) × Conn)
        → read_tcp_frame conn timeout max_handshake_frame_size ≡ r
        → (with_frame r w w further ≡ w)
          ⊎ ((channel : Text) × (frame : Frame) × (rest : Conn) × (read_tcp_frame conn timeout
                  max_handshake_frame_size
                ≡ (done (channel, frame), rest))
              × ((authenticate frame).valid ≡ true))
    after_read (done (channel, frame), rest) e = elim (accepted channel frame rest) [
      | inl same ↦ inl same
      | inr y ↦ inr (channel, frame, rest, e, y)
    ]
    after_read (failed f, rest) e = inl refl
    after_read (waiting, rest) e = inl refl

-- A read that returns a frame has taken bytes from the connection.
abbrev Shorter : Conn → Read (Text × Frame) × Conn → Type 0
Shorter conn (done f, rest) = length rest.input < length conn.input
Shorter conn _ = Unit

read_tcp_frame-Shorter :
    (conn : Conn) (timeout limit : ℕ) → Shorter conn (read_tcp_frame conn timeout limit)
unfolding read_tcp_frame read_sized read_payload cut_short split_payload
read_tcp_frame-Shorter conn timeout limit =
    if_cases (Shorter conn) conn.can_set_deadline
      (λ a.
        if_cases (Shorter conn) (ltb (length conn.input) 4)
          (λ b. cut handshake_timeout conn.after (ltb 0 timeout) _)
          (λ b.
            if_cases (Shorter conn) (ltb 0 limit && ltb (u32 limit) (from_be32 conn.input))
              (λ c. tt)
              (λ c.
                if_cases (Shorter conn) (leb (from_be32 conn.input) (length (drop 4 conn.input)))
                  (λ d. split (take (from_be32 conn.input) (drop 4 conn.input)) _ (
                    ground (
                      arith,
                      length-drop (from_be32 conn.input) (drop 4 conn.input),
                      length-drop 4 conn.input,
                    )))
                  (λ d. cut conn_error conn.after (ltb 0 timeout) _))))
      (λ a. tt)
  where
    cut :
        (e : Error) (end : ReadEnd) (deadline : Bool) (rest : Conn)
        → Shorter conn (cut_short e end deadline, rest)
    cut e silent true rest = tt
    cut e silent false rest = tt
    cut e closed deadline rest = tt
    cut e broken deadline rest = tt

    split :
        (payload : List ℕ) (rest : Conn)
        → length rest.input < length conn.input
        → Shorter conn (split_payload payload, rest)
    split payload rest h =
        if_cases (λ r. Shorter conn (r, rest)) (ltb (length payload) 4) (λ e. tt)
          (λ e.
            if_cases (λ r. Shorter conn (r, rest)) (ltb (length payload - 4) (from_be32 payload))
              (λ f. tt) (λ f. h))

unless_failed-agree :
    (r : World × Done) (f g : World → World × Bool)
    → ((u : World) → f u ≡ g u)
    → unless_failed r returned f ≡ unless_failed r returned g
unless_failed-agree (u, ok _) f g h = h u
unless_failed-agree (u, err e) f g h = refl

with_frame-agree :
    (conn : Conn) (r : Read (Text × Frame) × Conn) (w : World)
    (f g : Text → Frame → Conn → World × Bool)
    → Shorter conn r
    → ((c : Text) (b : Frame) (rest : Conn)
        → length rest.input < length conn.input
        → f c b rest ≡ g c b rest)
    → with_frame r (blocked w) (returned w) f ≡ with_frame r (blocked w) (returned w) g
with_frame-agree conn (done (c, b), rest) w f g s h = h c b rest s
with_frame-agree conn (failed e, rest) w f g s h = refl
with_frame-agree conn (waiting, rest) w f g s h = refl

-- The loop has enough fuel: above the length of the input, more changes nothing.
pub serve_frames-enough :
    (n m : ℕ) (w : World) (peer : ℕ) (conn : Conn)
    → length conn.input < n
    → length conn.input < m
    → serve_frames n w peer conn ≡ serve_frames m w peer conn
unfolding serve_frames
serve_frames-enough zero m w peer conn h k = absurd (omega arith)
serve_frames-enough (suc n) zero w peer conn h k = absurd (omega arith)
serve_frames-enough (suc n) (suc m) w peer conn h k =
    with_frame-agree conn (read_tcp_frame conn 0 max_frame_size) w _ _
      (read_tcp_frame-Shorter conn 0 max_frame_size)
      (λ c b rest s.
        unless_failed-agree (dispatch_tcp_frame w peer c b) _ _
          (λ u. serve_frames-enough n m u peer rest (omega arith) (omega arith)))

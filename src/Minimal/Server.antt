-- ===== src/Minimal/Server.antt =====
-- examples/minimal/infra/httpsrv/server.go. The package net/http is over the state `H` of its *http.Server; how
-- ListenAndServe ends is an argument. The channel has room for one error.
use Prim.Native.String.{◌++◌}
use go_ddd_core.Prelude.{
  ℕ, suc, String, Bool, true, false, Option, none, some, List, [], ◌∷◌, ltb, length, if◌then◌else◌,
  ◌≡◌, refl,
}
use go_ddd_core.Prelude.Int.{ℤ}
use go_ddd_core.Errors.{Error, plain, error_is, error_text}

-- `http.ErrServerClosed`
abbrev pub err_server_closed : Error
err_server_closed = plain "http: Server closed"

-- `Server`, with what it has printed; `serving` counts the goroutines that Start has left running.
pub record Server (H : Type 0) : Type 0 where
  pub addr : String
  pub shutdown_timeout : ℤ
  pub srv : H
  pub serving : ℕ
  pub err_ch : List Error
  pub closed : Bool
  pub stderr : List String

module _ {H : Type 0} where
  -- `New(addr, shutdownTimeout)`
  unfoldable pub new : String → ℤ → H → Server H
  new addr timeout srv = record {
    addr = addr;
    shutdown_timeout = timeout;
    srv = srv;
    serving = 0;
    err_ch = [];
    closed = false;
    stderr = [];
  }

  -- `s.Start(ctx)`
  unfoldable pub start : Server H → Server H × Option Error
  start s = (record s { serving = suc s.serving }, none)

  -- `close(s.errCh)`: none is a panic, of a second close.
  abbrev pub close_channel : Server H → Option (Server H)
  close_channel s = if s.closed then none else some (record s { closed = true })

  -- A fatal error of the listener; the send waits while the channel is full.
  abbrev pub report : Error → Server H → Option (Server H)
  report e s =
      let line = ("httpsrv: listen on " ++ s.addr) ++ (" failed: " ++ error_text e) in
      some (record s {
        stderr = line ∷ s.stderr;
        err_ch = if ltb (length s.err_ch) 1 then e ∷ s.err_ch else s.err_ch;
      })

  -- What the goroutine of Start does when ListenAndServe has returned.
  unfoldable pub listening_ended : Option Error → Server H → Option (Server H)
  listening_ended none s = close_channel s
  listening_ended (some e) s =
      if error_is "http: Server closed" e then close_channel s else report e s

  -- `s.Stop(ctx)`; `shutdown` is `Shutdown` of the *http.Server within a time.
  unfoldable pub stop : (ℤ → H → H × Option Error) → Server H → Server H × Option Error
  stop shutdown s = let (srv, e) = shutdown s.shutdown_timeout s.srv in (record s { srv = srv }, e)

-- What a receive from `s.Err()` gives: an error, the end of a closed channel, or nothing for ever.
pub data Received : Type 0 where
  value : Error → Received
  ended : Received
  blocked : Received

abbrev pub received : {H : Type 0} → List Error → Server H → Server H × Received
received (e ∷ es) s = (record s { err_ch = es }, value e)
received [] s = (s, if s.closed then ended else blocked)

-- `<-s.Err()`
unfoldable pub receive : {H : Type 0} → Server H → Server H × Received
receive s = received s.err_ch s

abbrev pub receive_twice : {H : Type 0} → Option (Server H) → Option (Received × Received)
receive_twice none = none
receive_twice (some s) = let (t, x) = receive s in some (x, (receive t).1)

-- After a clean shutdown the channel of errors is closed without a value. After a fatal error of the
-- listener it gives that error, and then nothing: it is not closed, so a second receive, or a loop over
-- the channel, waits for ever.
pub receive-listening_ended :
    {H : Type 0} (addr : String) (timeout : ℤ) (srv : H) (e : Error)
    → error_is "http: Server closed" e ≡ false
    → let s = (start (new addr timeout srv)).0 in
      (receive_twice (listening_ended (some err_server_closed) s) ≡ some (ended, ended))
      × (receive_twice (listening_ended (some e) s) ≡ some (value e, blocked))
unfolding start new listening_ended receive error_is
receive-listening_ended addr timeout srv e h = (refl, rw h refl)

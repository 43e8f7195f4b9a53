-- ===== src/Socket/Safe.antt =====
-- The functions on sockets of src/internal/libsocket.c in runs whose calls are all of one kind.
use tiny_mon.Base.{ℕ, List, refl, ◌==◌, is_negative}
use tiny_mon.Os.{Address, Sys, Call, Reply}
use tiny_mon.Os.Safe
use tiny_mon.Os.Safe.{Safe, ends, exits, Since, sys-Safe}
use tiny_mon.Socket.{
  socket_init, socket_setsockopt_reuseaddr, socket_bind_address, socket_listen, socket_connect,
  htons, inaddr_any,
}

module _ {F : Type 0} {P : Call → Type 0} {base : List (Call × Reply)} where
  pub socket_init-Safe :
      (s : Sys)
      → P Call.socket
      → Since P base s.trace
      → Safe F P base (λ _ t. Unit {0}) (socket_init s)
  unfolding socket_init
  socket_init-Safe s p all =
      Safe.bind (sys-Safe Call.socket s p all) λ r t all' a.
        Safe.branch (is_negative r.value) _ _ t (λ e. ends all' tt) (λ e. ends all' tt)

  module _ (fd : ℕ) (closes : P (Call.close fd)) where
    pub socket_connect-Safe :
        (addr : Address) (s : Sys)
        → P (Call.connect fd addr)
        → Since P base s.trace
        → Safe F P base (λ _ t. Unit {0}) (socket_connect addr fd s)
    unfolding socket_connect
    socket_connect-Safe addr s p all =
        Safe.bind (sys-Safe (Call.connect fd addr) s p all) λ r t all' a.
          Safe.branch (is_negative r.value) _ _ t
            (λ e.
              Safe.bind (sys-Safe (Call.close fd) t closes all') λ r' u all'' a'. exits refl all'')
            (λ e. ends all' tt)

    pub setsockopt-Safe :
        (s : Sys)
        → P (Call.setsockopt fd)
        → Since P base s.trace
        → Safe F P base (λ _ t. Unit {0}) (socket_setsockopt_reuseaddr fd s)
    unfolding socket_setsockopt_reuseaddr
    setsockopt-Safe s p all = Safe.bind (sys-Safe (Call.setsockopt fd) s p all) λ r t all' a.
        Safe.branch (r.value == 0) _ _ t (λ e. ends all' tt)
          (λ e.
            Safe.bind (sys-Safe (Call.close fd) t closes all') λ r' u all'' a'. exits refl all'')

    pub bind_address-Safe :
        (port : ℕ) (s : Sys)
        → P (Call.bind fd (record { ip = inaddr_any; port = htons port }))
        → Since P base s.trace
        → Safe F P base (λ _ t. Unit {0}) (socket_bind_address port fd s)
    unfolding socket_bind_address
    bind_address-Safe port s p all = Safe.bind (sys-Safe _ s p all) λ r t all' a.
        Safe.branch (is_negative r.value) _ _ t
          (λ e.
            Safe.bind (sys-Safe (Call.close fd) t closes all') λ r' u all'' a'. exits refl all'')
          (λ e. ends all' tt)

    pub listen-Safe :
        (s : Sys)
        → P (Call.listen fd)
        → Since P base s.trace
        → Safe F P base (λ _ t. Unit {0}) (socket_listen fd s)
    unfolding socket_listen
    listen-Safe s p all = Safe.bind (sys-Safe (Call.listen fd) s p all) λ r t all' a.
        Safe.branch (is_negative r.value) _ _ t
          (λ e.
            Safe.bind (sys-Safe (Call.close fd) t closes all') λ r' u all'' a'. exits refl all'')
          (λ e. ends all' tt)

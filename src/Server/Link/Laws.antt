-- ===== src/Server/Link/Laws.antt =====
-- What a connection may do before and after its registration, and what it leaves behind.
use tcpadapter.Common.{ℕ, ◌≡◌, true, false, not, ◌&&◌, Option, none, some, Bytes, ◌==◌, ◌⊎◌, is_ok}
use tcpadapter.Common.Int.{ℤ}
use tcpadapter.Common.Dict.{Eq, lookup, bytes_key}
use tcpadapter.Protocol.Frame.{Frame, command_id}
use tcpadapter.Protocol.Messages.Registration.{parse_registration_payload, is_empty}
use tcpadapter.Store.{Store}
use tcpadapter.Session.Types.{Session}
use tcpadapter.Session.Manager.{mark_offline}
use tcpadapter.Session.Manager.Connections.{mark_offline-conn}
use tcpadapter.Server.Guard.Strikes.{Strikes}
use tcpadapter.Server.Link.{Link, LinkConfig, Turn, closes, clean_up}

-- The turn of a connection that is not registered yet, for a frame that is no registration.
abbrev pub NoRegistration : Frame → Type 0
NoRegistration f =
    (command_id f.payload ≡ none)
    ⊎ ((cmd : ℕ) × (command_id f.payload ≡ some cmd)
        × (((cmd == 1) ≡ false) ⊎ (is_ok (parse_registration_payload f.payload) ≡ false)))

module _ {Conn : Type 0} {st : Store} {N : Type 0} ⦃e : Eq Conn⦄ (remote_host : Conn → Bytes)
    (write : Conn → ℕ → Bytes → Option N) (cfg : LinkConfig) (conn : Conn) where
  -- The turn ends the connection, with the sessions, the frames and the notes as before, and a violation for the guard.
  pub data Refused (now : ℤ) (l : Link Conn st N) : Turn Conn st N → Type 0 where
    refused :
        (l' : Link Conn st N)
        → l'.registered ≡ false
        → l'.sessions ≡ l.sessions
        → l'.wire ≡ l.wire
        → l'.notes ≡ l.notes
        → Strikes cfg.guard (remote_host conn) now l.guard l'.guard
        → Refused now l (closes l')

  -- After the clean-up of a registered connection with an id, the session of that id, if there is one, is without a connection, also
  -- if the store fails.
  pub clean_up-offline :
      (now : ℤ) (l : Link Conn st N) (s : Session Conn)
      → l.registered ≡ true
      → is_empty l.controller_id ≡ false
      → lookup l.controller_id (clean_up remote_host write cfg conn now l).sessions.sessions
        ≡ some s
      → s.conn ≡ none
  unfolding clean_up mark_offline
  clean_up-offline now l s there named h =
      let both : (l.registered && not (is_empty l.controller_id)) ≡ true = rw (there, named) in
      mark_offline-conn Conn st l.controller_id now l.sessions s (rw (clean_up, both) at h)

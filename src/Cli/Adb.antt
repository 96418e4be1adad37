-- ===== src/Cli/Adb.antt =====
-- pkg/cli/adbserver.go: the messages to the ADB server, and (with conn.go) the loop that writes all
-- of a text to a connection.
pub mod Framing
pub mod Writing
use cloud_android_orchestrat.Errors.{plain}
use cloud_android_orchestrat.Text.{hex_onto, itoa, text_length}
use cloud_android_orchestrat.Exec.{Exec, crash, deferring, pure, raise, wrapped, ◌>>=◌, ◌>>◌}
use cloud_android_orchestrat.Prelude.{
  [], Option, String, if◌then◌else◌, none, some, suc, zero, ℕ, ◌<>◌, ◌==◌,
}

-- `ADBServerPort`
abbrev adb_server_port : ℕ
adb_server_port = 5037

abbrev adb_serial : ℕ → String
adb_serial port = "127.0.0.1:" <> itoa port

-- `%.4x` of a length below 16^4, before the message
unfoldable pub framed : String → String
framed msg = hex_onto 4 (text_length msg) msg

unfoldable pub drop_text : ℕ → String → String
drop_text zero s = s
drop_text (suc n) String.[] = ""
drop_text (suc n) (String.◌∷◌ c s) = drop_text n s

module _ {W : Type 0} (write : String → Exec W ℕ) where
  -- `for written < len(msg)`, on the text behind what is written, with so many calls at most
  unfoldable pub write_all : ℕ → String → Exec W (Unit {0})
  write_all zero rest = crash "the loop goes on"
  write_all (suc fuel) rest =
      let go_on : ℕ → Exec W (Unit {0}) = (λ n. write_all fuel (drop_text n rest)) in
      if text_length rest == 0 then pure tt else write rest >>= go_on

-- The ADB server's connection
pub record AdbServer (W : Type 0) : Type 0 where
  pub dial : String → Exec W (Unit {0})
  pub write : String → Exec W ℕ
  pub close : Exec W (Unit {0})

module _ {W : Type 0} (server : AdbServer W) where
  -- `sendMsg`; a message of length n is written in at most n calls, which each write something
  unfoldable pub send_msg : String → Exec W (Unit {0})
  send_msg msg = do
    wrapped "Unable to contact ADB server" (server.dial ("127.0.0.1:" <> itoa adb_server_port))
    deferring server.close (
        wrapped "Error sending message to ADB server"
          (write_all server.write (suc (text_length (framed msg))) (framed msg)))

  -- `Connect`
  unfoldable pub connect : ℕ → Exec W (Unit {0})
  connect port = send_msg ("host:connect:" <> adb_serial port)

  -- `Disconnect`
  unfoldable disconnect : ℕ → Exec W (Unit {0})
  disconnect port = send_msg ("host:disconnect:" <> adb_serial port)

-- `Send` of the forwarder: a connection that is nil is an error.
unfoldable forwarder_send :
    {W : Type 0} → Option (String → Exec W ℕ) → ℕ → String → Exec W (Unit {0})
forwarder_send none port data_ = raise (plain ("No connection yet on port " <> itoa port))
forwarder_send (some write) port data_ = write_all write (suc (text_length data_)) data_

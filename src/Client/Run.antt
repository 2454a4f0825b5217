-- ===== src/Client/Run.antt =====
-- A method of the client: the commands that it hands to the event loop, in order, and its result.
use reveries_network.Common.{Bool, List, [], ◌++◌, Result, ok, err, if◌then◌else◌}
use reveries_network.Network.Commands.{NodeCommand}
use reveries_network.Client.{ClientError}

abbrev pub Run : Type 0 → Type 0
Run A = List NodeCommand × Result ClientError A

infixl 5 ◌>>=◌
abbrev pub ◌>>=◌ : {A : Type 0} {B : Type 0} → Run A → (A → Run B) → Run B
(sent, ok a) >>= f = (sent ++ (f a).0, (f a).1)
(sent, err e) >>= f = (sent, err e)

abbrev pub lift : {A : Type 0} → Result ClientError A → Run A
lift r = ([], r)

-- `send` on the channel to the event loop: nothing is handed over where nobody receives.
abbrev pub send_or : ClientError → Bool → List NodeCommand → Run Unit
send_or e receiver_open commands = if receiver_open then (commands, ok tt) else ([], err e)

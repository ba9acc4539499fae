-- ===== src/App/CommandLine.antt =====
-- The command line of src/app.rs, as clap parses it, and the command that `NetApp::run` starts for it.
use rust_user_net.Base.{ℕ, List, Option, none, false, Run, done, ◌>>=◌, unwrap}
use rust_user_net.App.Commands.{TcpClient, UdpClient}

pub data EndPointCommand : Type 0 where
  send : List ℕ → ℕ → List ℕ → EndPointCommand
  receive : List ℕ → List ℕ → EndPointCommand

-- `Commands`, with the field of `Tcp` and of `Udp`.
pub data Commands : Type 0 where
  tcp udp : Option EndPointCommand → Commands

-- The thread of a command at its start: what it was given, and what it keeps between its rounds.
pub data Started : Type 0 where
  tcp_sends : List ℕ → ℕ → List ℕ → TcpClient → Started
  tcp_receives : Option ℕ → Started
  udp_sends : List ℕ → ℕ → List ℕ → UdpClient → Started
  udp_receives : Option ℕ → Started

-- The starts of the threads.
unfoldable pub tcp_send_command : List ℕ → ℕ → List ℕ → Started
tcp_send_command target_ip target_port text =
    tcp_sends target_ip target_port text (record { sock = none; request_sent = false })

unfoldable pub tcp_receive_command : Started
tcp_receive_command = tcp_receives none

unfoldable pub udp_send_command : List ℕ → ℕ → List ℕ → Started
udp_send_command target_ip target_port text =
    udp_sends target_ip target_port text (record { socket = none; sent_count = 0 })

unfoldable pub udp_receive_command : Started
udp_receive_command = udp_receives none

-- A TCP or UDP command; a receive drops the local endpoint that it was given.
unfoldable pub run_tcp : EndPointCommand → Started
unfolding tcp_send_command tcp_receive_command
run_tcp (EndPointCommand.send target_ip target_port text) =
    tcp_send_command target_ip target_port text
run_tcp (EndPointCommand.receive local_ip local_port) = tcp_receive_command

unfoldable pub run_udp : EndPointCommand → Started
unfolding udp_send_command udp_receive_command
run_udp (EndPointCommand.send target_ip target_port text) =
    udp_send_command target_ip target_port text
run_udp (EndPointCommand.receive local_ip local_port) = udp_receive_command

-- `NetApp::run`, which unwraps the command.
unfoldable pub run : Commands → Run Started
unfolding run_tcp run_udp
run (tcp command) = do c ← unwrap command; done (run_tcp c)
run (udp command) = do c ← unwrap command; done (run_udp c)

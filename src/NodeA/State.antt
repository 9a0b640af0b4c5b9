-- ===== src/NodeA/State.antt =====
-- src/node_a/main.cpp: the variables that the two threads share and keep, and where each thread stands.
use accelerometer_tcp_json_t.Prelude.{ℕ, Bool, String, List}
use accelerometer_tcp_json_t.Doubles.{Doubles}
use accelerometer_tcp_json_t.Packet.{AccelPacket, AccelModule}
use accelerometer_tcp_json_t.Client.{TcpClient}
use accelerometer_tcp_json_t.NodeA.Emulator.{AccelerometerEmulator}

pub data Notice (D : Doubles) : Type 0 where
  connection_error send_error send_packet_error : String → Notice D
  log_not_opened log_opened started : Notice D
  read_error invalid_json protocol_error unsupported_type invalid_module : String → Notice D
  sent_packet : String → Notice D
  module_statistics : ℕ → AccelModule D → Notice D

-- Where `main` stands.
pub data MainPc (D : Doubles) : Type 0 where
  -- At the head of its loop.
  generating : MainPc D
  -- Before the WriteJson of a packet.
  sending : AccelPacket D → MainPc D
  -- After a WriteJson that failed, before `is_runnig = false`.
  failing : MainPc D
  -- Before `client.Close()`, and before `receiver_thread.join()`.
  closing joining : MainPc D
  -- After EXIT_SUCCESS or EXIT_FAILURE.
  returned : Bool → MainPc D
  -- After std::terminate, which has ended the process.
  aborted : MainPc D

-- Where ReceiveModules stands.
pub data ReceiverPc : Type 0 where
  absent : ReceiverPc
  -- Before it makes the directory and opens the file in it.
  opening : ReceiverPc
  -- At `while (is_running)`.
  testing : ReceiverPc
  -- Before the test of ReadLine, and in `read_until`.
  entering reading : ReceiverPc
  -- After a ReadLine that failed, before `if (is_running)`.
  failing : String → ReceiverPc
  -- Before `is_running = false; return;`.
  stopping : ReceiverPc
  finished : ReceiverPc
  -- After std::terminate, as above.
  aborted : ReceiverPc

pub record NodeA (D : Doubles) : Type 0 where
  pub client : TcpClient
  pub is_running : Bool
  pub emulator : AccelerometerEmulator
  pub generated_packets_count : ℕ
  pub received_modules_count : ℕ
  -- The lines written to accel/module.log.
  pub module_log : List (AccelModule D)
  pub main : MainPc D
  pub receiver : ReceiverPc
  -- What `read_until` has taken from the connection so far.
  pub bytes : String
  pub log : List (Notice D)

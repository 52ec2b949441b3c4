-- ===== src/MessageQueue.antt =====
-- 10-message-queues/client-server: a server that returns files through System V message queues,
-- and its client. What the system calls answer is given as lists, in the order of the calls.
pub mod Transfer
use linux_programing.Common.{
  ℕ, ◌+◌, Bool, true, false, Option, none, some, List, [], ◌∷◌, ltb, if◌then◌else◌, length,
}
use linux_programing.Common.Int.{ℤ, pos, negsuc, ◌+ℤ◌}

-- `enum typeMsg`
pub data TypeMsg : Type 0 where
  resp_mq_failure resp_mq_data resp_mq_end : TypeMsg

-- `struct responseMsg`, with the bytes that are sent of its `data`.
pub record ResponseMsg : Type 0 where
  pub mtype : TypeMsg
  pub body : List ℕ

-- A call of `read` and, if it got bytes, the answer of the `msgsnd` behind it.
pub record Round : Type 0 where
  pub chunk : List ℕ
  pub sent : Bool

-- `while ((numRead = read(...)) > 0) if (msgsnd(...) == -1) break;`
pub send_data : List Round → List ResponseMsg
send_data [] = []
send_data (r ∷ rounds) =
    let later = send_data rounds in
    if ltb 0 (length r.chunk)
    then if r.sent then record { mtype = resp_mq_data; body = r.chunk } ∷ later else []
    else []

-- "Couldn't open", with its final zero.
abbrev pub couldnt_open : List ℕ
couldnt_open =
    b'C' ∷ b'o' ∷ b'u' ∷ b'l' ∷ b'd' ∷ b'n' ∷ 39 ∷ b't' ∷ 32 ∷ b'o' ∷ b'p' ∷ b'e' ∷ b'n' ∷ 0 ∷ []

-- The message that ends the file or refuses it, when its `msgsnd` succeeds.
append_last : (sent : Bool) → ResponseMsg → List ResponseMsg → List ResponseMsg
append_last sent m [] = if sent then m ∷ [] else []
append_last sent m (n ∷ ms) = n ∷ append_last sent m ms

-- `serveRequest`: the messages that reach the client's queue. `sent` is the answer of the last `msgsnd`,
-- which is not looked at.
pub serve_request : (opened : Bool) → List Round → (sent : Bool) → List ResponseMsg
unfolding append_last send_data
serve_request opened rounds sent =
    if opened
    then append_last sent (record { mtype = resp_mq_end; body = [] }) (send_data rounds)
    else append_last sent (record { mtype = resp_mq_failure; body = couldnt_open }) []

-- What the server's `msgrcv` and `fork` answer.
pub data Arrival : Type 0 where
  request : (client_id : ℕ) → (forked : Bool) → Arrival
  interrupted : Arrival
  recv_error : Arrival

-- The clients that got a child process, and whether the server's queue is removed.
pub record Served : Type 0 where
  pub children : List ℕ
  pub removed : Bool

-- The loop of the server's `main`, and the removal behind it.
pub server_main : List Arrival → Served
server_main [] = record { children = []; removed = false }
server_main (interrupted ∷ later) = server_main later
server_main (recv_error ∷ later) = record { children = []; removed = true }
server_main (request c forked ∷ later) =
    let served = server_main later in
    if forked
    then record { children = c ∷ served.children; removed = served.removed }
    else record { children = []; removed = true }

-- How the client ends. `undefined` is a test of a response that was never received.
pub data Report : Type 0 where
  failed : (text : List ℕ) → Report
  finished : (tot_bytes : ℤ) → (num_msgs : ℕ) → Report
  waiting : Report
  undefined : Report

-- `for (numMsgs = 1; resp.mtype == RESP_MQ_DATA; numMsgs++)`: a failed `msgrcv` is logged, adds
-- its -1 to the total, and leaves the response as it was.
pub receive_data : TypeMsg → (tot_bytes : ℤ) → (num_msgs : ℕ) → List (Option ResponseMsg) → Report
receive_data resp_mq_failure tot num answers = finished tot num
receive_data resp_mq_end tot num answers = finished tot num
receive_data resp_mq_data tot num [] = waiting
receive_data resp_mq_data tot num (none ∷ answers) =
    receive_data resp_mq_data (tot +ℤ negsuc 0) (num + 1) answers
receive_data resp_mq_data tot num (some r ∷ answers) =
    receive_data r.mtype (tot +ℤ pos (length r.body)) (num + 1) answers

-- The first response may be a failure.
first_response : ResponseMsg → List (Option ResponseMsg) → Report
unfolding receive_data
first_response r answers = elim r.mtype [
  | resp_mq_failure ↦ failed r.body
  | resp_mq_data ↦ receive_data resp_mq_data (pos (length r.body)) 1 answers
  | resp_mq_end ↦ receive_data resp_mq_end (pos (length r.body)) 1 answers
]

-- The client's `main`, from its first `msgrcv` on.
pub client_main : List (Option ResponseMsg) → Report
unfolding first_response
client_main [] = waiting
client_main (none ∷ answers) = undefined
client_main (some r ∷ answers) = first_response r answers

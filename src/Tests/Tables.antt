-- ===== src/Tests/Tables.antt =====
-- Examples for the tables of blocks: what `select` answers, and which block of UDP serves an endpoint.
use rust_user_net.Base.{◌≡◌, refl, List, [], ◌∷◌, some, true, false, arith, set}
use rust_user_net.Udp.Pcbs as UdpBlocks
use rust_user_net.Udp.Apart.Steps as UdpSteps
use rust_user_net.Udp.Apart.Steps.{Reach-alone}
use rust_user_net.Udp.Pcbs.{UdpPcb, UdpPcbs, UdpPcbState, serves}
use rust_user_net.Udp.Socket.{open_socket, bind}
use rust_user_net.Tcp.Types.{TcpPcb, TcpPcbState, new_pcb}
use rust_user_net.Tcp.Pcbs.{select}
use rust_user_net.Tcp.Select.{Answer, select-Answer}
use rust_user_net.Tests.{endpoint_one, endpoint_two}

-- A free block, one that listens and one of a connection, in this order.
abbrev listeners : List TcpPcb
listeners =
    new_pcb
    ∷ record new_pcb { state = TcpPcbState.listen; local = endpoint_two }
    ∷ record new_pcb {
      state = TcpPcbState.established;
      local = endpoint_two;
      remote = endpoint_one;
    }
    ∷ []

select-listeners : select listeners endpoint_two (some endpoint_one) ≡ some 2
unfolding select
select-listeners = refl

select-Answer_example :
    Answer listeners endpoint_two
      (some endpoint_one)
      (select listeners endpoint_two (some endpoint_one))
select-Answer_example = select-Answer listeners endpoint_two (some endpoint_one)

-- The first block of the table, when it is open and when it is bound.
abbrev opened_block : UdpPcb
opened_block = record UdpBlocks.new_pcb { state = UdpPcbState.open_ }

abbrev bound_block : UdpPcb
bound_block = record opened_block { local_endpoint = endpoint_one }

abbrev opened_table : UdpPcbs
opened_table = record { entries = set UdpBlocks.new_pcbs.entries 0 opened_block }

abbrev bound_table : UdpPcbs
bound_table = record { entries = set opened_table.entries 0 bound_block }

bound_table-Reach : UdpSteps.Reach bound_table
unfolding open_socket bind UdpBlocks.get_by_host
bound_table-Reach =
    UdpSteps.Reach.steps
      (UdpSteps.Reach.steps UdpSteps.Reach.starts
        (UdpSteps.Step.opens 0 {next = opened_table} refl))
      (UdpSteps.Step.binds 0 opened_block endpoint_one {now = opened_table} {next = bound_table}
        refl refl refl)

bound_block-serves : serves bound_block endpoint_one.address endpoint_one.port ≡ true
unfolding serves
bound_block-serves = refl

Reach-alone_example : serves UdpBlocks.new_pcb endpoint_one.address endpoint_one.port ≡ false
Reach-alone_example =
    Reach-alone bound_table endpoint_one.address endpoint_one.port 0 1 bound_block UdpBlocks.new_pcb
      bound_table-Reach (λ e. ground arith) (λ e. ground arith) refl refl bound_block-serves
      (λ e. ground arith)

-- ===== src/Tests/Factory.antt =====
-- The theorems on StreamFactory.
use socket_wrapper.Prelude.{refl}
use socket_wrapper.Prelude.Int.{pos}
use socket_wrapper.BaseTypes.{ipv4}
use socket_wrapper.StreamFactory.{Connections, create_pipe, create_tcp_stream_to_server}
use socket_wrapper.StreamFactory.Ends.{
  Connects, TcpEnds, PipeEnds, create_tcp_stream_to_server-TcpEnds, create_pipe-PipeEnds,
}
use socket_wrapper.Tests.Sim.{sim, sim_network, sim_descriptors, start}

abbrev sim_connections : Connections sim
sim_connections = record {
  socketpair = λ w. (record { result = pos 0; first = pos 3; second = pos 7 }, w);
  address = λ v text. 1;
  connect = λ fd v address port w. (pos 0, w);
}

abbrev sim_connects : Connects sim sim_network sim_connections sim_descriptors
sim_connects = record { open_connect = λ g fd v address port w. refl; open_eventfd = λ g w h. h }

create_tcp_stream_to_server-TcpEnds_example :
    TcpEnds sim sim_network sim_connections sim_descriptors sim_connects "127.0.0.1" 23 ipv4 start
      (create_tcp_stream_to_server sim sim_network sim_connections "127.0.0.1" 23 ipv4 start)
create_tcp_stream_to_server-TcpEnds_example =
    create_tcp_stream_to_server-TcpEnds sim sim_network sim_connections sim_descriptors sim_connects
      "127.0.0.1" 23 ipv4 start

create_pipe-PipeEnds_example :
    PipeEnds sim sim_network sim_connections
      (sim_connections.socketpair start).0
      (sim_connections.socketpair start).1
      (create_pipe sim sim_network sim_connections start)
create_pipe-PipeEnds_example = create_pipe-PipeEnds sim sim_network sim_connections start

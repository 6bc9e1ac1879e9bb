-- ===== src/Lib.antt =====
-- A verification library for the motion control system: the task scheduler, the execution queue and
-- the command executor, the task trigger, the two task decomposers with the trees of task nodes, the
-- business commands, the resource manager, the device manager, the event loop, the base of the
-- communication clients, the clients of custom protocols and of Modbus, the devices and their factory,
-- the configuration manager, the IPC server, the command router and the answers to business commands.
--
-- How the parts interact. A trigger makes tasks; the scheduler keeps them in four queues by priority
-- and passes the next one on through its task channel; the decomposer turns a task into motion
-- commands (TaskDecomposer over a task, TaskNodeDecomposer over a tree of nodes or a task without one);
-- a business command becomes a task for the scheduler; the executor pushes each command into the
-- execution queue, whose goroutines and those of the executor move it on to a device. A client's
-- message reaches the application manager, which routes it to a handler of commands and sends the
-- answer back. The devices are made of the configuration, and a device of hardware passes its calls on
-- to the hardware's own device manager, whose clients the factory configures. Each operation of
-- the source that holds its lock throughout is one step here, and a goroutine is a sequence of steps;
-- what goroutines do at the same time is a list of such steps in any order. executeTask,
-- AllocateForTask, ReleaseForTask and the calls of the IPC server hold no lock throughout and are one
-- step all the same; Ipc/Sending takes sends and closings of the IPC server apart.
--
-- Which file models what:
--   Prelude, Prelude/*   shared names, Boolean tests, lists measured by native numbers, object stores
--   GoMap, GoMap/*       Go's map[string]V; the order in which `range` visits it is a parameter
--   Channel              Go's buffered channel: send with `default`, receive, close
--   Outcome              how a step of a goroutine ends: it returns, panics or waits for ever
--   Types                pkg/types/types.go
--   Events               internal/core/events.go
--   Scheduler            internal/core/scheduler.go, TaskQueue and TaskScheduler: Start (start), Stop
--                        (stop), ScheduleTask, CancelTask, PauseTask, ResumeTask, GetTaskStatus,
--                        getNextTask
--   Scheduler/Execute    the same file: schedule (schedule_round), executeTask and the goroutine that it
--                        leaves (watch_done), processQueues, HandleEvent
--   Scheduler/Ready      the abstract view, one list in the order of service
--   Scheduler/*          histories, the invariant, and what follows from it
--   Queue                internal/core/queue.go: Start, Stop, Push, Pop and Peek (peek), Size, Clear,
--                        RemoveByTaskID, GetByTaskID, extractTaskID
--   Queue/Marking        the same file: MarkCommandSent, MarkCommandStarted, MarkCommandCompleted,
--                        sendCommandToExecutor (with_context), cleanupCompletedCommand
--   Queue/Bounds, Accepting, TaskIds   limits of the queue, what Push leaves behind, and the task ids that the
--                        queue derives
--   Executor             internal/core/executor.go
--   Executor/Handling    the same file: HandleEvent, and the goroutines that run executeCommands
--   Pipeline, Pipeline/* queue and executor together, their goroutines as steps in any order
--   Trigger, Trigger/*   internal/core/trigger.go
--   Decomposer, Decomposer/*   internal/core/decomposer.go, TaskDecomposer
--   Comm, Comm/*         internal/hardware/comm/base.go and interface.go
--   EventLoop, EventLoop/*   internal/core/eventloop.go; Stop is two steps, before and after its pause
--   Nodes, Nodes/Specific   pkg/types/tasknode.go: BaseTaskNode and the constructors of concrete nodes;
--                        executeSpecific of each concrete node
--   Nodes/Tables, Kinds   what parameters hold, and the types of nodes with their commands
--   Nodes/Lifecycle      what becomes of a node
--   NodeDecomposer, NodeDecomposer/Creation   internal/core/tasknode_decomposer.go: DecomposeTask,
--                        decomposeTaskNode (decompose_task_node), ValidateTaskNode; the creation of nodes
--                        from a configuration
--   NodeDecomposer/Parameters, Motion   the parameters of a node, and the motions of a task
--   NodeDecomposer/Plans, Built, Legacy   trees made by the constructors, trees made of a configuration,
--                        and tasks without a tree
--   Business, Business/Handling   internal/application/business_logic.go, and processTask of
--                        internal/application/task_orchestration.go
--   Resources, Resources/*   internal/hal/resource_manager.go: Allocate, Release, AllocateForTask and its
--                        rollback, ReleaseForTask
--   DeviceManager, DeviceManager/*   internal/hardware/devices/manager.go: BaseDevice over any client, and
--                        DeviceManager
--   CustomProtocol, CustomProtocol/Encoding, Frames, Answers   internal/hardware/protocols/custom/custom.go:
--                        integers and fields as bytes; checksums and frames; Connect, Read, Write and the
--                        wait for a response
--   CustomProtocol/Checks   encoding against decoding
--   Modbus, Modbus/*     internal/hardware/protocols/modbus/modbus.go: the client over the library
--                        goburrow/modbus, whose answers are arguments
--   Device, Device/*     internal/device/device.go: the manager of devices, and each kind of device:
--                        Device/Kinds (BaseDevice), Mock, Modbus, Hardware
--   Factory, Factory/*   internal/hardware/factory.go; Factory/Protocols makes the configurations of clients
--                        of the parameters of a device
--   Config, Config/*     internal/config/manager.go; Config/Records is the part of pkg/types/types.go that
--                        it keeps, Config/Defaults the default configuration, Config/Checking is validateConfig
--   Ipc, Ipc/Closing, Sending    internal/ipc/server.go: Broadcast, SendToClient, and the goroutines of a client
--   Router, Router/Routing       internal/core/command_handler.go
--   Management, Management/Answering   internal/management: config_handler.go, and the answers to business
--                        commands of application_manager.go
--   Samples, */Examples  concrete states, at which the theorems are applied
--
-- How state corresponds. A struct is a record with the source's fields; loggers, locks and wait groups
-- are left out. A pointer to a task or a command is a number, and a `heap` holds the objects, so that
-- the queues, maps and channels that share an object share its writes. A context is a number, with a
-- list of those that have been cancelled. A time is a number of nanoseconds, given to each operation
-- that reads the clock. Go's nil is `none`. Of an error only its kind is kept, or its text where the
-- source stores it.
--
-- Bounds. The task channel has 100 places, the channels of the execution queue 10 each, as in the
-- source. No loop needs fuel: the loops of goroutines are steps of a history, the retry loop is a
-- recursion on the attempts that are left, the decomposition runs over a finite tree, and the others run
-- over lists. Durations of nodes are taken to be shorter than 292 years.
--
-- A history of the pipeline has no Stop and no RemoveDevice in it: neither of them calls
-- `device.Write`, but a goroutine may panic once Stop has closed the send channel.
--
-- Not modelled: the trajectory planner, which is floating-point arithmetic and a parameter of the
-- decomposer; comparison and printing of floats, parameters too; most functions that report a status;
-- sockets, JSON and YAML, of which only the results are arguments; the client program of IPC; the serial
-- protocol, the managers of protocols and devices of the hardware abstraction, the start and stop of the
-- application's layers, logging and the programs. A task node that two parents share is not modelled,
-- nor is the goroutine that connects a new device. A retry count is taken to be no less than zero.
pub mod Prelude
pub mod GoMap
pub mod Management
pub mod Ipc
pub mod Router
pub mod Device
pub mod Factory
pub mod Types
pub mod Outcome
pub mod Channel
pub mod DeviceManager
pub mod Events
pub mod Scheduler
pub mod Queue
pub mod Executor
pub mod Pipeline
pub mod Trigger
pub mod Config
pub mod CustomProtocol
pub mod Decomposer
pub mod Comm
pub mod EventLoop
pub mod Business
pub mod Modbus
pub mod Nodes
pub mod NodeDecomposer
pub mod Resources
pub mod Samples
